-- ===== src/Extent/Client/Content.antt =====
-- extent_client.cc: what one client reads, before and after its calls, while the other clients rest.
use cse_labs.Prelude.{
  ℕ, ◌*◌, ◌^◌, ◌<◌, ◌≡◌, refl, sym, ap, ◌∙◌, Option, Option-cases, Bool-cases, none, some, inl, inr,
  arith, Bytes, bytes_key, nat_key, length, ◌==◌, if◌then◌else◌,
}
use cse_labs.StdMap.{Map, lookup, insert, lookup-insert}
use cse_labs.Fs.Disk.{BlockManager, maxfile}
use cse_labs.Fs.Inode.{Inode, AreBytes}
use cse_labs.Fs.Manager.Content.{FileAt, HasRoom}
use cse_labs.Extent.Cache.{IsStack, data-put}
use cse_labs.Extent.{update_handler, broadcast, Server, Stack, register, data_of, touch_data}
use cse_labs.Extent.Client.{Client, World, set_client, answered, get, put}
use cse_labs.Extent.Client.Agreement.{IsCoherent}
use cse_labs.Extent.Client.Coherence.{get_hit, get_miss, get-IsCoherent, Step-IsCoherent, puts}

-- What the client reads.
abbrev pub content : World → Bytes → ℕ → Bytes
content w name i = (get w name i).1

-- A read keeps the disk, what the server holds and what the client reads.
pub record Kept (name : Bytes) (w w' : World) : Type 0 where
  pub im : w'.server.im ≡ w.server.im
  pub held : (j : ℕ) → data_of w'.server j ≡ data_of w.server j
  pub read : (j : ℕ) → content w' name j ≡ content w name j
  pub coherent : IsCoherent w → IsCoherent w'

data-touch :
    (s : Server) (name : Bytes) (i j : ℕ)
    → data_of (register (touch_data s i) name i) j ≡ data_of s j
unfolding data_of register
data-touch s name i j = ground (arith, lookup-insert i j (data_of s i) s.data_cache)

-- A cached content stands before the server's.
abbrev first : Option Bytes → Bytes → Bytes
first none d = d
first (some b) d = b

content-first :
    (w : World) (name : Bytes) (i : ℕ)
    → content w name i ≡ first (lookup i (w.clients name).data_cache) (data_of w.server i)
content-first w name i = elim (Option-cases (lookup i (w.clients name).data_cache)) [
  | inr (b, p) ↦ ap (λ r. r.1) (get_hit w name i p) ∙ sym (ap (λ o. first o (data_of w.server i)) p)
  | inl p ↦ ap (λ r. r.1) (get_miss w name i p) ∙ sym (ap (λ o. first o (data_of w.server i)) p)
]

first-insert :
    (i j : ℕ) (m : Map ℕ Bytes) (d : ℕ → Bytes)
    → lookup i m ≡ none
    → first (lookup j (insert i (d i) m)) (d j) ≡ first (lookup j m) (d j)
first-insert i j m d h = elim (Bool-cases (i == j)) [
  | inl p ↦
      let same : i ≡ j = ground (arith, p) in
      rw (lookup-insert i j (d i) m, p)
        (ap d same ∙ sym (ap (λ o. first o (d j)) (sym (ap (λ k. lookup k m) same) ∙ h)))
  | inr p ↦ rw (lookup-insert i j (d i) m, p) refl
]

pub own_cache : (cs : Bytes → Client) (name : Bytes) (c : Client) → set_client cs name c name ≡ c
own_cache cs name c = rw ((bytes_key.beq_iff name name).1 refl) refl

pub get-Kept : (w : World) (name : Bytes) (i : ℕ) → Kept name w (get w name i).0
get-Kept w name i = elim (Option-cases (lookup i (w.clients name).data_cache)) [
  | inr (b, p) ↦
      rw (get_hit w name i p)
        (record { im = refl; held = λ j. refl; read = λ j. refl; coherent = λ h. h })
  | inl p ↦
      let q = get_miss w name i p in
      record {
        im = ap (λ r. r.0.server.im) q ∙ (unfold register in refl);
        held = λ j. ap (λ r. data_of r.0.server j) q ∙ data-touch w.server name i j;
        read = λ j.
            let s' = register (touch_data w.server i) name i in
            let c : Client = record (w.clients name) {
              data_cache = insert i (data_of w.server i) (w.clients name).data_cache;
            } in
            let w' : World = record { server = s'; clients = set_client w.clients name c } in
            ap (λ r. content r.0 name j) q
            ∙ content-first w' name j
            ∙ ap (λ k. first (lookup j k.data_cache) (data_of s' j)) (own_cache w.clients name c)
            ∙ ap (first (lookup j c.data_cache)) (data-touch w.server name i j)
            ∙ first-insert i j (w.clients name).data_cache (data_of w.server) p
            ∙ sym (content-first w name j);
        coherent = λ h. (get-IsCoherent w name i h).0;
      }
]

-- The disk has the file and takes `b` as its content.
pub record CanWrite (bm : BlockManager) (i : ℕ) (b : Bytes) : Type 0 where
  pub ino : Inode
  pub file : FileAt bm i ino
  pub small : i < 2 ^ 31
  pub fits : length b < maxfile * 512
  pub room : HasRoom bm ino (length b)
  pub bytes : AreBytes b

-- A put into a file with room, by a client whose caches agree with the server's, changes what the
-- client reads of this extent and of no other.
pub put-content :
    (w : World) (name : Bytes) (i : ℕ) (b : Bytes) (t : Stack)
    → IsCoherent w
    → CanWrite w.server.im i b
    → IsStack t
    → (w' : World) × (put w name i b t ≡ some w')
      × ((j : ℕ) → content w' name j ≡ (if i == j then b else content w name j))
      × IsCoherent w'
unfolding put
put-content w name i b t h c stack =
    let (s', a, done, _, read) =
      data-put w.server name i b t c.small c.file c.fits c.room c.bytes stack in
    let w' = answered w s' (broadcast (λ k. update_handler k i a b) w.server.clients i) in
    let ran : put w name i b t ≡ some w' = rw done refl in
    let h' = Step-IsCoherent (puts w name i b t w' ran) h in
    (
      w',
      ran,
      λ j.
          (get-IsCoherent w' name j h').1
          ∙ read j
          ∙ ap (λ k. if i == j then b else k) (sym (get-IsCoherent w name j h).1),
      h',
    )
