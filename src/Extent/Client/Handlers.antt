-- ===== src/Extent/Client/Handlers.antt =====
-- extent_server.cc: the handlers with the calls that they send, and the caches of the clients.
use cse_labs.Prelude.{
  ℕ, ◌%◌, ◌==◌, Bool, true, false, if◌then◌else◌, ◌^◌, ◌≡◌, sym, subst, some, List, ◌++◌, Bytes,
  bytes_key, nat_key, >>=-eq-some, given_answer,
}
use cse_labs.StdMap.{erase}
use cse_labs.Fs.Disk.{inode_num}
use cse_labs.Fs.Inodes.{Attr}
use cse_labs.Fs.Inodes
use cse_labs.Fs.Manager
use cse_labs.Extent.{
  broadcast, remove_handler, Call, Server, Stack, register, data_of, attr_of, touch_data, mask,
  zero_attr, update_cache, enter_name, get_attributes,
}
use cse_labs.Extent
use cse_labs.Extent.Client.{Client, deliver_all}
use cse_labs.Extent.Client.Agreement.{
  IsCoherent, register-IsCoherent, touch_data-IsCoherent, updated-IsCoherent, removed-IsCoherent,
}
use cse_labs.Extent.Client.Delivery.{deliver-append}

either_branch :
    {X P : Type 0} (b : Bool) {x y z : X} → (if b then x else y) ≡ z → (x ≡ z → P) → (y ≡ z → P) → P
either_branch true e f g = f e
either_branch false e f g = g e

-- The answer of a handler to a coherent world.
abbrev pub Keeps : (Bytes → Client) → Server × List Call → Type 0
Keeps cs r = IsCoherent (record { server = r.0; clients = deliver_all r.1 cs })

update_cache-IsCoherent :
    (s : Server) (cs : Bytes → Client) (id : ℕ) {r : Server × List Call}
    → update_cache s id ≡ some r
    → IsCoherent (record { server = s; clients = cs })
    → Keeps cs r
unfolding update_cache
update_cache-IsCoherent s cs id {r} e h =
    let (found, _, q1) = >>=-eq-some (Manager.read_file s.im (mask id)) _ e in
    let (a, _, q2) = >>=-eq-some (Inodes.getattr s.im (mask id) zero_attr) _ q1 in
    given_answer (Keeps cs) q2 (updated-IsCoherent s cs (mask id) (Extent.content_of found) a h)

pub put-IsCoherent :
    (s : Server) (cs : Bytes → Client) (client : Bytes) (id : ℕ) (buf : Bytes) (t : Stack)
    {r : Server × List Call}
    → Extent.put s client id buf t ≡ some r
    → IsCoherent (record { server = s; clients = cs })
    → Keeps cs r
unfolding Extent.put
put-IsCoherent s cs client id buf t e h =
    let (im, _, q1) = >>=-eq-some (Manager.write_file s.im (mask id) buf t.temp t.times) _ e in
    let ((s', calls), p2, q2) = >>=-eq-some (update_cache (record s { im = im }) (mask id)) _ q1 in
    let there =
      update_cache-IsCoherent (record s { im = im }) cs (mask id) p2
        (record { agrees = h.agrees }) in
    given_answer (Keeps cs) q2
      (register-IsCoherent s' (deliver_all calls cs) client (mask id) there)

-- Calls that go out one after the other.
Keeps-append :
    (cs : Bytes → Client) (a b : List Call) (s : Server)
    → Keeps (deliver_all a cs) (s, b)
    → Keeps cs (s, a ++ b)
Keeps-append cs a b s h =
    subst (λ k. IsCoherent (record { server = s; clients = k })) (sym (deliver-append a b cs)) h

enter_name-IsCoherent :
    (s : Server) (cs : Bytes → Client) (client : Bytes) (parent : ℕ) (name : Bytes) (id : ℕ)
    (t : Stack) {r : Server × List Call}
    → enter_name s client parent name id t ≡ some r
    → IsCoherent (record { server = s; clients = cs })
    → Keeps cs r
unfolding enter_name
enter_name-IsCoherent s cs client parent name id t e h =
    let (im, _, q1) =
      >>=-eq-some (Manager.write_file s.im (parent % 2 ^ 32) _ t.temp t.times) _ e in
    let touched = touch_data-IsCoherent s cs parent h in
    let s0 = record (touch_data s parent) { im = im } in
    let ((s1, c1), p2, q2) = >>=-eq-some (update_cache s0 parent) _ q1 in
    let h1 = update_cache-IsCoherent s0 cs parent p2 (record { agrees = touched.agrees }) in
    let ((s2, c2), p3, q3) = >>=-eq-some (update_cache s1 id) _ q2 in
    let h2 = update_cache-IsCoherent s1 (deliver_all c1 cs) id p3 h1 in
    let h3 = register-IsCoherent s2 (deliver_all c2 (deliver_all c1 cs)) client id h2 in
    given_answer (Keeps cs) q3 (Keeps-append cs c1 c2 (register s2 client id) h3)

pub create-IsCoherent :
    (s : Server) (cs : Bytes → Client) (type : ℕ) (client : Bytes) (parent : ℕ) (name : Bytes)
    (t : Stack) {r : (Extent.Status × ℕ) × Server × List Call}
    → Extent.create s type client parent name t ≡ some r
    → IsCoherent (record { server = s; clients = cs })
    → Keeps cs (r.1, r.2)
unfolding Extent.create deliver_all
create-IsCoherent s cs type client parent name t {r} e h =
    let P = λ (x : (Extent.Status × ℕ) × Server × List Call). Keeps cs (x.1, x.2) in
    let ((im, id), _, q1) = >>=-eq-some (Inodes.alloc_inode s.im type) _ e in
    let s0 = record s { im = im } in
    let h0 : IsCoherent (record { server = s0; clients = cs }) = record { agrees = h.agrees } in
    either_branch (id == inode_num) q1 (λ q. given_answer P q h0)
      (λ q.
        let ((s1, calls), p2, q2) = >>=-eq-some (enter_name s0 client parent name id t) _ q in
        given_answer P q2 (enter_name-IsCoherent s0 cs client parent name id t p2 h0))

pub create_symlink-IsCoherent :
    (s : Server) (cs : Bytes → Client) (client : Bytes) (parent : ℕ) (name link : Bytes)
    (t1 t2 : Stack) {r : ℕ × Server × List Call}
    → Extent.create_symlink s client parent name link t1 t2 ≡ some r
    → IsCoherent (record { server = s; clients = cs })
    → Keeps cs (r.1, r.2)
unfolding Extent.create_symlink
create_symlink-IsCoherent s cs client parent name link t1 t2 {r} e h =
    let ((im, id), _, q1) = >>=-eq-some (Inodes.alloc_inode s.im Inodes.t_symlink) _ e in
    let (im', _, q2) = >>=-eq-some (Manager.write_file im id link t1.temp t1.times) _ q1 in
    let s0 = record s { im = im' } in
    let ((s1, calls), p3, q3) = >>=-eq-some (enter_name s0 client parent name id t2) _ q2 in
    given_answer (λ (x : ℕ × Server × List Call). Keeps cs (x.1, x.2)) q3
      (enter_name-IsCoherent s0 cs client parent name id t2 p3 (record { agrees = h.agrees }))

pub remove-IsCoherent :
    (s : Server) (cs : Bytes → Client) (client : Bytes) (parent : ℕ) (name : Bytes) (id : ℕ)
    (t : Stack) {r : Server × List Call}
    → Extent.remove s client parent name id t ≡ some r
    → IsCoherent (record { server = s; clients = cs })
    → Keeps cs r
unfolding Extent.remove
remove-IsCoherent s cs client parent name id t {r} e h =
    let (im1, _, q1) = >>=-eq-some (Inodes.remove_file s.im (mask id)) _ e in
    let (buf, _, q2) = >>=-eq-some (Extent.erase_name name (data_of s parent)) _ q1 in
    let (im2, _, q3) =
      >>=-eq-some (Manager.write_file im1 (parent % 2 ^ 32) buf t.temp t.times) _ q2 in
    let touched = touch_data-IsCoherent s cs parent h in
    let s0 = record (touch_data s parent) { im = im2 } in
    let ((s1, c1), p4, q4) = >>=-eq-some (update_cache s0 parent) _ q3 in
    let h1 = update_cache-IsCoherent s0 cs parent p4 (record { agrees = touched.agrees }) in
    let h2 = removed-IsCoherent s1 (deliver_all c1 cs) (mask id) h1 in
    let s2 = record s1 {
      data_cache = erase (mask id) s1.data_cache;
      attr_cache = erase (mask id) s1.attr_cache;
    } in
    let c2 = broadcast (λ c. remove_handler c (mask id)) s1.clients (mask id) in
    given_answer (Keeps cs) q4 (
      Keeps-append cs c1 c2 (register s2 client (mask id))
        (register-IsCoherent s2 (deliver_all c2 (deliver_all c1 cs)) client (mask id) h2))
