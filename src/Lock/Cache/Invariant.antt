-- ===== src/Lock/Cache/Invariant.antt =====
-- What holds of one lock of the caching server between two handlers.
use cse_labs.Prelude.{
  ◌≡◌, refl, subst, ◌≢◌, false, Option, none, some, List, [], ◌∷◌, arith, Bytes, bytes_eq_iff,
  bytes_eq_refl, bytes_key,
}
use cse_labs.StdMap.{member, IsDistinct, member-add, add-ne-nil, add-IsDistinct}
use cse_labs.Lock.Cache.{
  State, free, locked, revoking, retrying, LockInfo, Reply, empty, acquire_in, acquire_info,
  hand_over, release_info, new_lockinfo,
}

-- Who owns the lock, who is asked to retry and who waits, by the state of the lock.
abbrev pub IsConsistent : State → LockInfo → Type 0
IsConsistent free i = (i.owner ≡ []) × (i.retrying_cid ≡ []) × (i.waiting_cids ≡ [])
IsConsistent locked i = (i.owner ≢ []) × (i.retrying_cid ≡ []) × (i.waiting_cids ≡ [])
IsConsistent revoking i =
    (i.owner ≢ [])
    × (i.retrying_cid ≡ [])
    × (i.waiting_cids ≢ [])
    × (member i.owner i.waiting_cids ≡ false)
IsConsistent retrying i =
    (i.owner ≡ []) × (i.retrying_cid ≢ []) × (member i.retrying_cid i.waiting_cids ≡ false)

pub record IsValid (i : LockInfo) : Type 0 where
  pub distinct : IsDistinct i.waiting_cids
  pub no_anonymous : member [] i.waiting_cids ≡ false
  pub consistent : IsConsistent i.stat i

pub new_lockinfo-IsValid : IsValid new_lockinfo
unfolding member
new_lockinfo-IsValid = record {
  distinct = tt;
  no_anonymous = refl;
  consistent = (refl, refl, refl);
}

-- A client that may ask for the lock: it has a name, and neither holds the lock nor waits for it.
pub record MayAcquire (i : LockInfo) (id : Bytes) : Type 0 where
  pub named : id ≢ []
  pub not_owner : i.owner ≢ id
  pub not_waiting : member id i.waiting_cids ≡ false

abbrev pub After : (Reply → Type 0) → Option Reply → Type 0
After P none = ⊥
After P (some r) = P r

acquire_in-IsValid :
    (s : State) (i : LockInfo) (id : Bytes)
    → i.stat ≡ s
    → IsConsistent s i
    → IsValid i
    → MayAcquire i id
    → After (λ r. IsValid r.info) (acquire_in s i id)
unfolding acquire_in empty member
acquire_in-IsValid free i id e c v m = ground (arith, bytes_eq_iff id [])
acquire_in-IsValid locked i id e c v m = ground (
  arith,
  bytes_eq_iff i.owner id,
  bytes_eq_iff id [],
  bytes_eq_iff id i.owner,
  member-add id i.owner i.waiting_cids,
  member-add id [] i.waiting_cids,
  add-ne-nil id i.waiting_cids,
  add-IsDistinct id i.waiting_cids,
)
acquire_in-IsValid revoking i id e c v m = ground (
  arith,
  bytes_eq_iff id [],
  bytes_eq_iff id i.owner,
  member-add id i.owner i.waiting_cids,
  member-add id [] i.waiting_cids,
  add-ne-nil id i.waiting_cids,
  add-IsDistinct id i.waiting_cids,
)
acquire_in-IsValid retrying i id e c v m = ground (
  arith,
  bytes_eq_iff id [],
  bytes_eq_iff id i.retrying_cid,
  member-add id i.retrying_cid i.waiting_cids,
  member-add id [] i.waiting_cids,
  add-IsDistinct id i.waiting_cids,
)

-- The lock stays well formed when a client asks for it.
pub acquire_info-IsValid :
    (i : LockInfo) (id : Bytes)
    → IsValid i
    → MayAcquire i id
    → After (λ r. IsValid r.info) (acquire_info i id)
unfolding acquire_info
acquire_info-IsValid i id v m = acquire_in-IsValid i.stat i id refl v.consistent v m

hand_over-IsValid :
    (i : LockInfo) (l : List Bytes)
    → IsConsistent revoking i
    → i.waiting_cids ≡ l
    → IsValid i
    → After (λ r. IsValid r.info) (hand_over i l)
unfolding hand_over member
hand_over-IsValid i [] s e v = absurd (s.2 e)
hand_over-IsValid i (x ∷ l) s e v =
    let d : IsDistinct (x ∷ l) = subst IsDistinct e v.distinct in
    let a : member [] (x ∷ l) ≡ false = subst (λ w. member [] w ≡ false) e v.no_anonymous in
    record {
      distinct = d.1;
      no_anonymous = ground (arith, bytes_eq_iff x []);
      consistent = (refl, ground (arith, bytes_eq_iff x []), d.0);
    }

-- The owner of a lock that is revoked can give it back, and the lock stays well formed.
pub release_info-IsValid :
    (i : LockInfo) (id : Bytes)
    → IsValid i
    → i.stat ≡ revoking
    → i.owner ≡ id
    → After (λ r. IsValid r.info) (release_info i id)
unfolding release_info
release_info-IsValid i id v s o =
    rw (s, o, bytes_eq_refl id)
      (hand_over-IsValid i i.waiting_cids (subst (λ t. IsConsistent t i) s v.consistent) refl v)
