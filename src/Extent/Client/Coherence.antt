-- ===== src/Extent/Client/Coherence.antt =====
-- extent_client.cc with extent_server.cc: what the clients read.
use cse_labs.Prelude.{
  ℕ, ◌*◌, ◌^◌, ◌<◌, ◌≡◌, refl, ◌∙◌, Option-cases, none, some, inl, inr, arith, Bytes, bytes_key,
  nat_key, >>=-eq-some, given_answer, length,
}
use cse_labs.StdMap.{lookup, insert, lookup-insert}
use cse_labs.Fs.Disk.{maxfile}
use cse_labs.Fs.Inode.{Inode, AreBytes}
use cse_labs.Fs.Manager.Content.{FileAt, HasRoom}
use cse_labs.Extent.Cache.{IsStack, data-put}
use cse_labs.Fs.Inodes.{Attr}
use cse_labs.Fs.Manager
use cse_labs.Extent.{
  update_handler, broadcast, remove_handler, Call, Server, Stack, register, data_of, attr_of,
  touch_data, mask, zero_attr, update_cache, enter_name, get_attributes,
}
use cse_labs.Extent
use cse_labs.Extent.Client.{
  new_client, World, set_client, answered, get, getattr, put, create_file_and_dir, create_symlink,
  remove,
}
use cse_labs.Extent.Client.Agreement.{
  IsCoherent, touch_attr-IsCoherent, register-IsCoherent, touch_data-IsCoherent,
}
use cse_labs.Extent.Client.Fetch.{store_data-IsCoherent, store_attr-IsCoherent, register-knows}
use cse_labs.Extent.Client.Handlers.{
  put-IsCoherent, create-IsCoherent, create_symlink-IsCoherent, remove-IsCoherent,
}

-- A read by a client of what it has, and of what it has not.
pub get_hit :
    (w : World) (name : Bytes) (eid : ℕ) {buf : Bytes}
    → lookup eid (w.clients name).data_cache ≡ some buf
    → get w name eid ≡ (w, buf)
unfolding get
get_hit w name eid p = rw (get, p) refl

pub get_miss :
    (w : World) (name : Bytes) (eid : ℕ)
    → lookup eid (w.clients name).data_cache ≡ none
    → get w name eid ≡ (
      record {
        server = register (touch_data w.server eid) name eid;
        clients = set_client w.clients name (record (w.clients name) {
          data_cache = insert eid (data_of w.server eid) (w.clients name).data_cache;
        });
      },
      data_of w.server eid,
    )
unfolding get Extent.get
get_miss w name eid p = rw (get, p) refl

data_of-found :
    (s : Server) (id : ℕ) {b : Bytes} → lookup id s.data_cache ≡ some b → b ≡ data_of s id
unfolding data_of
data_of-found s id e = rw (data_of, e) refl

attr_of-found :
    (s : Server) (id : ℕ) {a : Attr} → lookup id s.attr_cache ≡ some a → a ≡ attr_of s id
unfolding attr_of
attr_of-found s id e = rw (attr_of, e) refl

pub get-IsCoherent :
    (w : World) (name : Bytes) (eid : ℕ)
    → IsCoherent w
    → IsCoherent (get w name eid).0 × ((get w name eid).1 ≡ data_of w.server eid)
get-IsCoherent w name eid h = elim (Option-cases (lookup eid (w.clients name).data_cache)) [
  | inr (buf, p) ↦
      let q = ((h.agrees name).buf eid buf p).1 in
      rw (get_hit w name eid p) (h, data_of-found w.server eid q)
  | inl p ↦
      let s = touch_data w.server eid in
      let here : lookup eid s.data_cache ≡ some (data_of w.server eid) =
        ground (arith, lookup-insert eid eid (data_of w.server eid) w.server.data_cache) in
      let touched = touch_data-IsCoherent w.server w.clients eid h in
      let named = register-IsCoherent s w.clients name eid touched in
      rw (get_miss w name eid p) (
        store_data-IsCoherent (register s name eid) w.clients name eid (data_of w.server eid) named
            (register-knows s name eid) (unfold register in here),
        refl,
      )
]

getattr_hit :
    (w : World) (name : Bytes) (eid : ℕ) {a : Attr}
    → lookup eid (w.clients name).attr_cache ≡ some a
    → getattr w name eid ≡ (w, a)
unfolding getattr
getattr_hit w name eid p = rw (getattr, p) refl

abbrev touched_attr : Server → ℕ → Server
touched_attr s eid = record s { attr_cache = insert eid (attr_of s eid) s.attr_cache }

getattr_miss :
    (w : World) (name : Bytes) (eid : ℕ)
    → lookup eid (w.clients name).attr_cache ≡ none
    → getattr w name eid ≡ (
      record {
        server = register (touched_attr w.server eid) name eid;
        clients = set_client w.clients name (record (w.clients name) {
          attr_cache = insert eid (attr_of w.server eid) (w.clients name).attr_cache;
        });
      },
      attr_of w.server eid,
    )
unfolding getattr get_attributes
getattr_miss w name eid p = rw (getattr, p) refl

getattr-IsCoherent :
    (w : World) (name : Bytes) (eid : ℕ)
    → IsCoherent w
    → IsCoherent (getattr w name eid).0 × ((getattr w name eid).1 ≡ attr_of w.server eid)
getattr-IsCoherent w name eid h = elim (Option-cases (lookup eid (w.clients name).attr_cache)) [
  | inr (a, p) ↦
      let q = ((h.agrees name).attr eid a p).1 in
      rw (getattr_hit w name eid p) (h, attr_of-found w.server eid q)
  | inl p ↦
      let s = touched_attr w.server eid in
      let here : lookup eid s.attr_cache ≡ some (attr_of w.server eid) =
        ground (arith, lookup-insert eid eid (attr_of w.server eid) w.server.attr_cache) in
      let touched = touch_attr-IsCoherent w.server w.clients eid h in
      let named = register-IsCoherent s w.clients name eid touched in
      rw (getattr_miss w name eid p) (
        store_attr-IsCoherent (register s name eid) w.clients name eid (attr_of w.server eid) named
            (register-knows s name eid) (unfold register in here),
        refl,
      )
]

-- The clients and the server while one call runs at a time: none begins before the last one and the
-- calls that the server sent for it are over, and all of these arrive.
pub data Step : World → World → Type 0 where
  reads : (w : World) (name : Bytes) (eid : ℕ) → Step w (get w name eid).0
  reads_attr : (w : World) (name : Bytes) (eid : ℕ) → Step w (getattr w name eid).0
  puts :
      (w : World) (name : Bytes) (eid : ℕ) (buf : Bytes) (t : Stack) (w' : World)
      → put w name eid buf t ≡ some w'
      → Step w w'
  creates :
      (w : World) (client : Bytes) (type : ℕ) (name : Bytes) (parent : ℕ) (t : Stack) (eid : ℕ)
      (w' : World)
      → create_file_and_dir w client type name parent t ≡ some (eid, w')
      → Step w w'
  links :
      (w : World) (client name link : Bytes) (parent : ℕ) (t1 t2 : Stack) (eid : ℕ) (w' : World)
      → create_symlink w client name link parent t1 t2 ≡ some (eid, w')
      → Step w w'
  removes :
      (w : World) (client : Bytes) (eid parent : ℕ) (name : Bytes) (t : Stack) (w' : World)
      → remove w client eid parent name t ≡ some w'
      → Step w w'

-- The clients begin with empty caches.
pub data Reach : World → Type 0 where
  begin : (s : Server) → Reach (record { server = s; clients = λ _. new_client })
  next : {w w' : World} → Reach w → Step w w' → Reach w'

pub Step-IsCoherent : {w w' : World} → Step w w' → IsCoherent w → IsCoherent w'
unfolding put create_file_and_dir create_symlink remove
Step-IsCoherent (reads w name eid) h = (get-IsCoherent w name eid h).0
Step-IsCoherent (reads_attr w name eid) h = (getattr-IsCoherent w name eid h).0
Step-IsCoherent (puts w name eid buf t w' e) h =
    let ((s, calls), p, q) = >>=-eq-some (Extent.put w.server name eid buf t) _ e in
    given_answer IsCoherent q (put-IsCoherent w.server w.clients name eid buf t p h)
Step-IsCoherent (creates w client type name parent t eid w' e) h =
    let ((r, s, calls), p, q) =
      >>=-eq-some (Extent.create w.server type client parent name t) _ e in
    given_answer (λ (x : ℕ × World). IsCoherent x.1) q
      (create-IsCoherent w.server w.clients type client parent name t p h)
Step-IsCoherent (links w client name link parent t1 t2 eid w' e) h =
    let ((r, s, calls), p, q) =
      >>=-eq-some (Extent.create_symlink w.server client parent name link t1 t2) _ e in
    given_answer (λ (x : ℕ × World). IsCoherent x.1) q
      (create_symlink-IsCoherent w.server w.clients client parent name link t1 t2 p h)
Step-IsCoherent (removes w client eid parent name t w' e) h =
    let ((s, calls), p, q) = >>=-eq-some (Extent.remove w.server client parent name eid t) _ e in
    given_answer IsCoherent q (remove-IsCoherent w.server w.clients client parent name eid t p h)

pub Reach-IsCoherent : {w : World} → Reach w → IsCoherent w
unfolding lookup
Reach-IsCoherent (begin s) = record {
  agrees = λ name. record {
    buf = λ j b e. absurd (ground (arith, e));
    attr = λ j a e. absurd (ground (arith, e));
  };
}
Reach-IsCoherent (next r m) = Step-IsCoherent m (Reach-IsCoherent r)

-- The caches do not show while one call runs at a time: in every state that the server and its clients
-- reach by calls of which none begins before the one before it is over, and whose updates arrive at
-- every client, each client reads the content and the attributes of each extent that the server has in its own caches at that moment,
-- whether the client has them cached or not.
pub caches_hidden :
    {w : World} (name : Bytes) (eid : ℕ)
    → Reach w
    → ((get w name eid).1 ≡ data_of w.server eid) × ((getattr w name eid).1 ≡ attr_of w.server eid)
caches_hidden {w} name eid r =
    let h = Reach-IsCoherent r in
    ((get-IsCoherent w name eid h).1, (getattr-IsCoherent w name eid h).1)

-- What one client puts every client gets, while one call runs at a time and every client is reached:
-- after a put of data that is shorter than the largest file
-- into a file that is laid out, in any reachable state with the room on the disk that the file needs,
-- the disk holds the data and every client reads it, whatever it had cached.
pub get-put_any :
    {w : World} (name : Bytes) (eid : ℕ) (buf : Bytes) (t : Stack) {ino : Inode}
    → Reach w
    → eid < 2 ^ 31
    → FileAt w.server.im eid ino
    → length buf < maxfile * 512
    → HasRoom w.server.im ino (length buf)
    → AreBytes buf
    → IsStack t
    → (w' : World) × (put w name eid buf t ≡ some w')
      × (Manager.read_file w'.server.im eid ≡ some (some buf))
      × ((reader : Bytes) → (get w' reader eid).1 ≡ buf)
unfolding put Extent.get
get-put_any {w} name eid buf t r small at len room bytes stack =
    let (s', a, done, kept, read) =
      data-put w.server name eid buf t small at len room bytes stack in
    let calls = broadcast (λ c. update_handler c eid a buf) w.server.clients eid in
    let w' = answered w s' calls in
    let ran : put w name eid buf t ≡ some w' = rw done refl in
    let r' = next r (puts w name eid buf t w' ran) in
    (w', ran, kept, λ reader. (caches_hidden reader eid r').0 ∙ read eid ∙ ground arith)
