-- ===== src/Lock/Server/Serial.antt =====
-- The lock server when its handlers are served one after the other: a free lock is granted.
use cse_labs.Prelude.{
  ℕ, ◌≡◌, true, false, some, Option-cases, inl, inr, ◌∷◌, arith, ◌==◌, if◌then◌else◌, nat_key,
}
use cse_labs.StdMap.{lookup, lookup-insert}
use cse_labs.Lock.Server.{LockServer, locked, granted, acquire, release, retest, set_lock}

pub acquire_free :
    (l : LockServer) (i : ℕ)
    → locked l i ≡ false
    → (l' : LockServer) × (granted (acquire l i) ≡ some l')
      × ((j : ℕ) → locked l' j ≡ (if i == j then true else locked l j))
unfolding locked acquire retest
acquire_free l i free = elim (Option-cases (lookup i l.locks)) [
  | inl e ↦ (
    set_lock (record l { conds = i ∷ l.conds }) i true,
    ground (arith, e),
    λ j. ground (arith, lookup-insert i j true l.locks),
  )
  | inr (b, e) ↦
      (set_lock l i true, ground (arith, e), λ j. ground (arith, lookup-insert i j true l.locks))
]

pub release_frees :
    (l : LockServer) (i j : ℕ) → locked (release l i) j ≡ (if i == j then false else locked l j)
unfolding locked release
release_frees l i j = ground (arith, lookup-insert i j false l.locks)
