-- ===== src/Ydb/Locking/Deadlock.antt =====
-- The handlers of the server keep the graph of who waits for whom without cycles.
use cse_labs.Prelude.{
  ℕ, ◌<◌, ◌≤◌, ◌≡◌, ◌≢◌, refl, ◌⊎◌, inl, inr, Bool, true, false, ◌&&◌, some, arith, ltb, leb,
  nat_key,
}
use cse_labs.StdMap.{lookup}
use cse_labs.Lock.Server.{locked, release}
use cse_labs.Lock.Server.Serial.{acquire_free}
use cse_labs.Ydb.{ExtentClient}
use cse_labs.Ydb.Locking.{Matrix, Server, dependency_lock, add_edge, check_owner, check_cycle}
use cse_labs.Ydb.Locking.Graph.{Waits, IsRanked, dfs_decides, add_edge-IsRanked}

-- Among the transactions of the matrix, `id` has no edge any more, and every other edge is as it was.
abbrev pub Without : Matrix → ℕ → ℕ → Matrix → Type 0
Without d n id d' =
    ((i : ℕ) → i < n → (d' id i ≡ false) × (d' i id ≡ false))
    × ((i j : ℕ) → i ≢ id → j ≢ id → d' i j ≡ d i j)

abbrev pub TakenOut : {S : Type 0} → Server S → ℕ → Server S → Type 0
TakenOut s id s' = Without s.dependency s.trans_id id s'.dependency

-- The graph of a server has no cycle.
abbrev pub IsAcyclic : {S : Type 0} → Server S → Type 0
IsAcyclic s = (rank : ℕ → ℕ) × IsRanked s.dependency s.trans_id rank

-- The answer `cycle` about waiting for `id2` is right, and the graph has no cycle after it.
abbrev pub Judged : {S : Type 0} → Server S → ℕ → ℕ → Bool → Server S → Type 0
Judged s id id2 cycle s' =
    ((cycle ≡ true) × Waits s.dependency s.trans_id id2 id × (s'.dependency ≡ s.dependency))
    ⊎ ((cycle ≡ false)
        × (Waits s.dependency s.trans_id id2 id → ⊥)
        × (s'.dependency ≡ add_edge s.dependency id id2))

module _ {S : Type 0} (c : ExtentClient S) where
  -- `checkCycle` for a lock that another transaction has, on a graph without cycles, with depth for
  -- the search and room in the matrix: it returns, and says true exactly when the lock's owner waits
  -- for the caller. Otherwise the caller waits for the owner from now on. Either way the graph has no
  -- cycle afterwards.
  pub check_cycle-IsAcyclic :
      (fuel : ℕ) (s : Server S) (id ino id2 : ℕ) (acyclic : IsAcyclic s)
      → lookup ino s.lock_handlers ≡ some id2
      → locked s.lc dependency_lock ≡ false
      → id2 < s.trans_id
      → s.trans_id ≤ 1024
      → id < 1024
      → acyclic.0 id2 < fuel
      → (s' : Server S) × (cycle : Bool) × (check_cycle c fuel s id ino ≡ some (cycle, s'))
        × Judged s id id2 cycle s'
        × IsAcyclic s'
  unfolding check_cycle check_owner
  check_cycle-IsAcyclic fuel s id ino id2 (rank, ranked) owner free known room small deep =
      let (lc, got, _) = acquire_free s.lc dependency_lock free in
      let inside : (ltb id2 s.trans_id && (leb s.trans_id 1024 && ltb id 1024)) ≡ true =
        ground arith in
      elim (dfs_decides fuel s.dependency s.trans_id id2 id rank ranked deep) [
        | inl (f, w) ↦ (
          record s { lc = release lc dependency_lock },
          true,
          rw (got, owner, inside, f) refl,
          inl (refl, w, refl),
          (rank, ranked),
        )
        | inr (f, never) ↦ (
          record s { lc = release lc dependency_lock; dependency = add_edge s.dependency id id2 },
          false,
          rw (got, owner, inside, f) refl,
          inr (refl, never, refl),
          add_edge-IsRanked s.dependency s.trans_id rank id id2 ranked never,
        )
      ]
