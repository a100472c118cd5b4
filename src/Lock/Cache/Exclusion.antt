-- ===== src/Lock/Cache/Exclusion.antt =====
-- What the caching lock server promises its clients.
use cse_labs.Prelude.{
  ℕ, ◌≡◌, refl, ◌∙◌, ◌≢◌, ◌⊎◌, inl, inr, true, false, Option, none, some, [], ◌∷◌, arith, Bytes,
  bytes_eq_iff, bytes_eq_refl, bytes_key, nat_key,
}
use cse_labs.StdMap.{member, lookup, insert, member-add}
use cse_labs.Lock.Protocol.{ok, retry}
use cse_labs.Lock.Cache.{
  State, free, locked, revoking, retrying, LockInfo, Reply, Answer, LockServerCache, empty,
  acquire_in, acquire_info, release_info, revoke_call, retry_call, info_of, store, acquire, release,
}
use cse_labs.Lock.Cache.Invariant.{
  IsValid, IsConsistent, MayAcquire, After, acquire_info-IsValid, release_info-IsValid,
}
use cse_labs.Lock.Cache.Agreement.{
  System, Reach, holders, Called, LockAgrees, Reach-Agrees, info_of-store,
}

holders_unique :
    (i : LockInfo) (a b : Bytes) → member a (holders i) ≡ true → member b (holders i) ≡ true → a ≡ b
unfolding empty member
holders_unique i a b p q = ground (arith, bytes_eq_iff i.owner a, bytes_eq_iff i.owner b)

-- In every state that the server and its clients can reach, at most one client holds a lock.
mutual_exclusion :
    {n : ℕ} {s : System}
    → Reach n s
    → (lid : ℕ) (a b : Bytes) → member a (s.held lid) ≡ true
    → member b (s.held lid) ≡ true
    → a ≡ b
mutual_exclusion {s = s} r lid a b p q =
    let g = (Reach-Agrees r lid).holding in
    holders_unique (info_of s.server lid) a b (rw g at p) (rw g at q)

Waits : LockInfo → Bytes → Type 0
Waits i id = member id i.waiting_cids ≡ true

acquire_in-outcome :
    (s : State) (i : LockInfo) (id : Bytes) {r : Reply}
    → acquire_in s i id ≡ some r
    → (r.status ≡ ok) × (r.info.owner ≡ id)
      ⊎ (r.status ≡ retry) × (member id r.info.waiting_cids ≡ true)
unfolding acquire_in
acquire_in-outcome free i id e = ground arith
acquire_in-outcome _ i id e = ground (arith, member-add id id i.waiting_cids, bytes_eq_refl id)

abbrev Grants : LockServerCache → ℕ → Bytes → Type 0
Grants s lid id = (a : Answer) × (acquire s lid id ≡ some a) × (a.status ≡ ok)

abbrev Releases : LockServerCache → ℕ → Bytes → Type 0
Releases s lid id = (a : Answer) × (release s lid id ≡ some a)

store-some :
    (s : LockServerCache) (lid : ℕ) (o : Option Reply) (r : Reply)
    → o ≡ some r
    → (a : Answer) × (store s lid o ≡ some a) × (a.status ≡ r.status) × (a.callback ≡ r.callback)
unfolding store
store-some s lid o r e = (
  record {
    server = record s { lockmap = insert lid r.info s.lockmap };
    status = r.status;
    callback = r.callback;
  },
  ground arith,
  refl,
  refl,
)

retrying-grants :
    (i : LockInfo)
    → i.stat ≡ retrying
    → member i.retrying_cid i.waiting_cids ≡ false
    → After (λ r. r.status ≡ ok) (acquire_info i i.retrying_cid)
unfolding acquire_info acquire_in
retrying-grants i e m = rw e (ground (arith, bytes_eq_refl i.retrying_cid))

pub After-some :
    (P : Reply → Type 0) (o : Option Reply) → After P o → (r : Reply) × (o ≡ some r) × P r
After-some P none h = elim h [ ]
After-some P (some r) h = (r, refl, h)

acquire-outcome :
    (s : LockServerCache) (lid : ℕ) (id : Bytes) (a : Answer)
    → acquire s lid id ≡ some a
    → ((a.status ≡ ok) × ((info_of a.server lid).owner ≡ id))
      ⊎ ((a.status ≡ retry) × (member id (info_of a.server lid).waiting_cids ≡ true))
unfolding acquire acquire_info
acquire-outcome s lid id a e =
    let (r, q, st, cb, inf) = info_of-store s lid lid _ e in
    let here : info_of a.server lid ≡ r.info = ground (arith, inf) in
    let out = acquire_in-outcome (info_of s lid).stat (info_of s lid) id q in rw (here, st) out

-- A caller that neither holds the lock nor waits for it fails no check of the server: it gets the
-- lock and is its owner, or it is told to retry and is on the waiting list.
acquire_total :
    {n : ℕ} {s : System}
    → Reach n s
    → (lid : ℕ) (id : Bytes) → id ≢ []
    → (info_of s.server lid).owner ≢ id
    → member id (info_of s.server lid).waiting_cids ≡ false
    → (a : Answer) × (acquire s.server lid id ≡ some a)
      × (((a.status ≡ ok) × ((info_of a.server lid).owner ≡ id))
          ⊎ ((a.status ≡ retry) × (member id (info_of a.server lid).waiting_cids ≡ true)))
acquire_total {s = s} reach lid id n o w =
    let i = info_of s.server lid in
    let may : MayAcquire i id = record { named = n; not_owner = o; not_waiting = w } in
    let valid = (Reach-Agrees reach lid).valid in
    let (r, e, _) =
      After-some (λ r. IsValid r.info) (acquire_info i id) (acquire_info-IsValid i id valid may) in
    let (a, q, _, _) = store-some s.server lid (acquire_info i id) r e in
    let p : acquire s.server lid id ≡ some a = unfold acquire in q in
    (a, p, acquire-outcome s.server lid id a p)

found_of_waiting :
    (s : LockServerCache) (lid : ℕ) (id : Bytes)
    → member id (info_of s lid).waiting_cids ≡ true
    → lookup lid s.lockmap ≡ some (info_of s lid)
unfolding info_of member
found_of_waiting s lid id m = ground arith

release_found :
    (s : LockServerCache) (lid : ℕ)
    → lookup lid s.lockmap ≡ some (info_of s lid)
    → (info_of s lid).stat ≡ revoking
    → IsValid (info_of s lid)
    → Releases s lid (info_of s lid).owner
unfolding release
release_found s lid f st v =
    let i = info_of s lid in
    let (r, q, _) =
      After-some (λ r. IsValid r.info) (release_info i i.owner)
        (release_info-IsValid i i.owner v st refl) in
    let (a, p, _, _) = store-some s lid (release_info i i.owner) r q in (a, ground (arith, f, p))

Grants-retrying :
    (s : LockServerCache) (lid : ℕ)
    → (info_of s lid).stat ≡ retrying
    → member (info_of s lid).retrying_cid (info_of s lid).waiting_cids ≡ false
    → Grants s lid (info_of s lid).retrying_cid
unfolding acquire
Grants-retrying s lid e m =
    let i = info_of s lid in
    let (r, q, k) =
      After-some (λ r. r.status ≡ ok) (acquire_info i i.retrying_cid) (retrying-grants i e m) in
    let (a, p, st, _) = store-some s lid (acquire_info i i.retrying_cid) r q in (a, p, st ∙ k)

-- Someone whom the server has called can move the lock on: the holder, which was told to give the
-- lock back and can, or a client that was told to retry and will get the lock.
abbrev CanProgress : System → ℕ → Type 0
CanProgress s lid =
    ((o : Bytes) × (s.held lid ≡ o ∷ []) × (s.called lid ≡ revoke_call o) × Releases s.server lid o)
    ⊎ ((o : Bytes) × (s.held lid ≡ []) × (s.called lid ≡ retry_call o) × Grants s.server lid o)

progress_in :
    (t : State) (s : System) (lid : ℕ)
    → (info_of s.server lid).stat ≡ t
    → IsConsistent t (info_of s.server lid)
    → Called t (info_of s.server lid) (s.called lid)
    → LockAgrees (info_of s.server lid) (s.held lid) (s.called lid)
    → lookup lid s.server.lockmap ≡ some (info_of s.server lid)
    → (info_of s.server lid).waiting_cids ≢ []
    → CanProgress s lid
unfolding empty
progress_in free s lid e c k g f w = absurd (w c.2)
progress_in locked s lid e c k g f w = absurd (w c.2)
progress_in revoking s lid e c k g f w = inl (
  (info_of s.server lid).owner,
  ground (arith, g.holding),
  k,
  release_found s.server lid f e g.valid,
)
progress_in retrying s lid e c k g f w = inr (
  (info_of s.server lid).retrying_cid,
  ground (arith, g.holding),
  k,
  Grants-retrying s.server lid e c.2,
)

-- No lost waiter: in every reachable state, whenever a client is on the waiting list of a lock, the
-- holder of the lock was called to give it back and its release passes the checks of the server, or
-- nobody holds the lock, the last call asked a client to retry, and that client's acquire succeeds.
waiting_progress :
    {n : ℕ} {s : System}
    → Reach n s
    → (lid : ℕ) (id : Bytes) → member id (info_of s.server lid).waiting_cids ≡ true
    → CanProgress s lid
unfolding member
waiting_progress {s = s} reach lid id m =
    let g = Reach-Agrees reach lid in
    progress_in (info_of s.server lid).stat s lid refl g.valid.consistent g.calling g
      (found_of_waiting s.server lid id m) (λ e. ground (arith, e))
