-- ===== src/Ydb/Locking/Tests.antt =====
-- Two transactions of which the first waits for the second, and the second asks for the lock of the
-- first.
use cse_labs.Prelude.{
  ℕ, ◌≡◌, refl, Bool, false, ◌&&◌, some, [], ◌∷◌, arith, ◌==◌, if◌then◌else◌, Bytes, nat_key,
}
use cse_labs.StdMap.{lookup}
use cse_labs.Lock.Server.{new_lock_server, locked}
use cse_labs.Ydb.{map_client}
use cse_labs.Ydb.Locking.{Matrix, Server, Transaction, dependency_lock, dfs, check_cycle}
use cse_labs.Ydb.Locking.Graph.{Answer, IsRanked, dfs_decides}
use cse_labs.Ydb.Locking.Deadlock.{IsAcyclic, Judged, check_cycle-IsAcyclic}

abbrev first_waits : Matrix
first_waits a i = a == 0 && i == 1

abbrev rank : ℕ → ℕ
rank a = if a == 0 then 1 else 0

first_waits-IsRanked : IsRanked first_waits 2 rank
first_waits-IsRanked a i x y z = ground (arith, x, y)

abbrev writer : Transaction
writer = record { locks = 98 ∷ []; log = (98, 5 ∷ []) ∷ [] }

abbrev waiting : Server (ℕ → Bytes)
waiting = record {
  ec = λ i. [];
  lc = new_lock_server;
  dependency = first_waits;
  trans_id = 2;
  infos = (0, writer) ∷ (1, record { locks = []; log = [] }) ∷ [];
  lock_handlers = (98, 0) ∷ [];
}

owner : lookup 98 waiting.lock_handlers ≡ some 0
unfolding lookup
owner = refl

free : locked waiting.lc dependency_lock ≡ false
unfolding locked lookup
free = refl

dfs_decides_example : Answer first_waits 2 0 1 (dfs 3 first_waits 2 0 1)
dfs_decides_example = dfs_decides 3 first_waits 2 0 1 rank first_waits-IsRanked (omega arith)

check_cycle-IsAcyclic_example :
    (s' : Server (ℕ → Bytes)) × (cycle : Bool) × (check_cycle map_client 3 waiting 1 98
      ≡ some (cycle, s'))
    × Judged waiting 1 0 cycle s'
    × IsAcyclic s'
check_cycle-IsAcyclic_example =
    check_cycle-IsAcyclic map_client 3 waiting 1 98 0 (rank, first_waits-IsRanked) owner free
      (omega arith) (omega arith) (omega arith) (omega arith)
