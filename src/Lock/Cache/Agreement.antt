-- ===== src/Lock/Cache/Agreement.antt =====
-- The caching lock server together with the clients that hold its locks, over any history of calls, and
-- the agreement of the two.
use cse_labs.Prelude.{
  ℕ, ◌≡◌, refl, subst, sym, ap, ◌∙◌, ◌≢◌, inl, inr, false, Option, none, some, List, [], ◌∷◌, arith,
  ◌==◌, if◌then◌else◌, Bytes, bytes_eq_iff, bytes_key, nat_key, Option-cases, Bool-cases,
}
use cse_labs.StdMap.{member, lookup, lookup-insert}
use cse_labs.Lock.Protocol.{Status, ok}
use cse_labs.Lock.Cache.{
  State, free, locked, revoking, retrying, LockInfo, Callback, Reply, Answer, LockServerCache,
  empty, acquire_in, acquire_info, hand_over, is_revoking, release_info, no_call, revoke_call,
  retry_call, info_of, store, acquire, release,
}
use cse_labs.Lock.Cache.Invariant.{
  IsValid, IsConsistent, MayAcquire, After, acquire_info-IsValid, release_info-IsValid,
  new_lockinfo-IsValid,
}

-- The client that holds a lock, as the server sees it.
abbrev pub holders : LockInfo → List Bytes
holders i = if empty i.owner then [] else i.owner ∷ []

-- The last call that the server made about a lock.
abbrev latest : Callback → Callback → Callback
latest c no_call = c
latest c (revoke_call a) = revoke_call a
latest c (retry_call a) = retry_call a

-- The call that the state of a lock promises.
abbrev pub Called : State → LockInfo → Callback → Type 0
Called revoking i c = c ≡ revoke_call i.owner
Called retrying i c = c ≡ retry_call i.retrying_cid
Called _ i c = Unit

abbrev pub granted : Status → Bytes → List Bytes → List Bytes
granted ok id l = id ∷ l
granted _ id l = l

acquire_in-MayAcquire :
    (s : State) (i : LockInfo) (id : Bytes) {r : Reply}
    → IsConsistent s i
    → id ≢ []
    → i.owner ≢ id
    → acquire_in s i id ≡ some r
    → MayAcquire i id
unfolding acquire_in member
acquire_in-MayAcquire free i id c n o e = ground arith
acquire_in-MayAcquire locked i id c n o e = ground arith
acquire_in-MayAcquire _ i id c n o e = ground arith

acquire_in-holders :
    (s : State) (i : LockInfo) (id : Bytes) {r : Reply}
    → IsConsistent s i
    → id ≢ []
    → acquire_in s i id ≡ some r
    → holders r.info ≡ granted r.status id (holders i)
unfolding acquire_in empty
acquire_in-holders free i id c n e = ground arith
acquire_in-holders locked i id c n e = ground arith
acquire_in-holders _ i id c n e = ground arith

acquire_in-Called :
    (s : State) (i : LockInfo) (id : Bytes) (last : Callback) {r : Reply}
    → i.stat ≡ s
    → Called s i last
    → acquire_in s i id ≡ some r
    → Called r.info.stat r.info (latest last r.callback)
unfolding acquire_in
acquire_in-Called free i id last p c e = ground arith
acquire_in-Called locked i id last p c e = ground arith
acquire_in-Called _ i id last p c e = ground arith

-- The server, the clients that hold each lock, and the last call that was made about each lock.
pub record System : Type 0 where
  pub server : LockServerCache
  pub held : ℕ → List Bytes
  pub called : ℕ → Callback

abbrev pub update {ℓ} : {A : Type ℓ} → (ℕ → A) → ℕ → A → ℕ → A
update f i a j = if i == j then a else f j

abbrev pub initial : ℕ → System
initial n = record {
  server = record { nacquire = n; lockmap = [] };
  held = λ _. [];
  called = λ _. no_call;
}

-- A client asks for a lock only while it does not hold it, and releases only what it holds. The
-- calls are served in any order.
pub data Step (s : System) : System → Type 0 where
  acquires :
      (lid : ℕ) (id : Bytes) {a : Answer}
      → id ≢ []
      → member id (s.held lid) ≡ false
      → acquire s.server lid id ≡ some a
      → Step s (record {
        server = a.server;
        held = update s.held lid (granted a.status id (s.held lid));
        called = update s.called lid (latest (s.called lid) a.callback);
      })
  releases :
      (lid : ℕ) (id : Bytes) {a : Answer}
      → s.held lid ≡ id ∷ []
      → release s.server lid id ≡ some a
      → Step s (record {
        server = a.server;
        held = update s.held lid [];
        called = update s.called lid (latest (s.called lid) a.callback);
      })

pub data Reach (n : ℕ) : System → Type 0 where
  start : Reach n (initial n)
  later : {s t : System} → Reach n s → Step s t → Reach n t

-- The server's record of a lock agrees with the clients that hold it and the calls that were made.
pub record LockAgrees (i : LockInfo) (held : List Bytes) (called : Callback) : Type 0 where
  pub valid : IsValid i
  pub holding : held ≡ holders i
  pub calling : Called i.stat i called

abbrev pub Agrees : System → Type 0
Agrees s = (lid : ℕ) → LockAgrees (info_of s.server lid) (s.held lid) (s.called lid)

holders-not_owner :
    (i : LockInfo) (id : Bytes) (held : List Bytes)
    → held ≡ holders i
    → id ≢ []
    → member id held ≡ false
    → i.owner ≢ id
unfolding empty member
holders-not_owner i id held h n m = ground (arith, bytes_eq_iff i.owner id)

acquire_info-Agrees :
    (i : LockInfo) (id : Bytes) (held : List Bytes) (c : Callback) (r : Reply)
    → LockAgrees i held c
    → id ≢ []
    → member id held ≡ false
    → acquire_info i id ≡ some r
    → LockAgrees r.info (granted r.status id held) (latest c r.callback)
unfolding acquire_info
acquire_info-Agrees i id held c r a n m e = record {
  valid = subst (After (λ r. IsValid r.info)) e (acquire_info-IsValid i id a.valid may);
  holding =
      ap (granted r.status id) a.holding
      ∙ sym (acquire_in-holders i.stat i id a.valid.consistent n e);
  calling = acquire_in-Called i.stat i id c refl a.calling e;
}
  where
    may : MayAcquire i id
    may =
        acquire_in-MayAcquire i.stat i id a.valid.consistent n
          (holders-not_owner i id held a.holding n m) e

hand_over-moves :
    (i : LockInfo) (l : List Bytes) (c : Callback) (r : Reply)
    → hand_over i l ≡ some r
    → (holders r.info ≡ []) × Called r.info.stat r.info (latest c r.callback)
unfolding hand_over empty
hand_over-moves i [] c r e = cc
hand_over-moves i (x ∷ l) c r e = ground arith

pub release_info-some :
    (i : LockInfo) (id : Bytes) (r : Reply)
    → release_info i id ≡ some r
    → (i.stat ≡ revoking) × (i.owner ≡ id) × (hand_over i i.waiting_cids ≡ some r)
unfolding release_info is_revoking
release_info-some i id r e = ground (arith, bytes_eq_iff i.owner id)

release_info-Agrees :
    (i : LockInfo) (id : Bytes) (held : List Bytes) (c : Callback) (r : Reply)
    → LockAgrees i held c
    → release_info i id ≡ some r
    → LockAgrees r.info [] (latest c r.callback)
release_info-Agrees i id held c r a e =
    let (s, o, h) = release_info-some i id r e in
    let (none_left, call) = hand_over-moves i i.waiting_cids c r h in
    record {
      valid = subst (After (λ r. IsValid r.info)) e (release_info-IsValid i id a.valid s o);
      holding = sym none_left;
      calling = call;
    }

-- What a handler leaves: the lock it was about has the new record, every other its old one.
pub info_of-store :
    (s : LockServerCache) (lid j : ℕ) (o : Option Reply) {a : Answer}
    → store s lid o ≡ some a
    → (r : Reply) × (o ≡ some r)
      × (a.status ≡ r.status)
      × (a.callback ≡ r.callback)
      × (info_of a.server j ≡ (if lid == j then r.info else info_of s j))
unfolding store info_of
info_of-store s lid j none e = cc
info_of-store s lid j (some r) e =
    (r, refl, ground arith, ground arith, ground (arith, lookup-insert lid j r.info s.lockmap))

release-release_info :
    (s : LockServerCache) (lid : ℕ) (id : Bytes) {a : Answer}
    → release s lid id ≡ some a
    → store s lid (release_info (info_of s lid) id) ≡ some a
unfolding release info_of
release-release_info s lid id e = elim (Option-cases (lookup lid s.lockmap)) [
  | inl p ↦ ground arith
  | inr (i, p) ↦ ground arith
]

store-Agrees :
    (s : System) (lid : ℕ) (o : Option Reply) (a : Answer) (h : List Bytes)
    → store s.server lid o ≡ some a
    → ((r : Reply)
        → o ≡ some r
        → a.status ≡ r.status
        → LockAgrees r.info h (latest (s.called lid) r.callback))
    → Agrees s
    → (j : ℕ)
    → LockAgrees
        (info_of a.server j)
        (update s.held lid h j)
        (update s.called lid (latest (s.called lid) a.callback) j)
store-Agrees s lid o a h e new old j =
    let (r, q, st, cb, inf) = info_of-store s.server lid j o e in
    elim (Bool-cases (lid == j)) [
      | inl p ↦ rw (inf, p, cb) (new r q st)
      | inr p ↦ rw (inf, p) (old j)
    ]

Step-Agrees : {s t : System} → Step s t → Agrees s → Agrees t
unfolding acquire
Step-Agrees {s} (acquires lid id {a = a} n m e) g =
    store-Agrees s lid _ a _ e
      (λ r q st. rw st (acquire_info-Agrees (info_of s.server lid) id _ _ r (g lid) n m q)) g
Step-Agrees {s} (releases lid id {a = a} h e) g =
    store-Agrees s lid _ a _ (release-release_info s.server lid id e)
      (λ r q st. release_info-Agrees (info_of s.server lid) id _ _ r (g lid) q) g

initial-Agrees : (n : ℕ) → Agrees (initial n)
unfolding info_of lookup empty
initial-Agrees n lid = record { valid = new_lockinfo-IsValid; holding = refl; calling = tt }

pub Reach-Agrees : {n : ℕ} {s : System} → Reach n s → Agrees s
Reach-Agrees {n} start = initial-Agrees n
Reach-Agrees (later r st) = Step-Agrees st (Reach-Agrees r)
