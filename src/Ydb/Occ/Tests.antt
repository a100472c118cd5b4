-- ===== src/Ydb/Occ/Tests.antt =====
-- A transaction that read one key and wrote another, over an extent server with a new disk.
use cse_labs.Prelude.{◌≡◌, refl, Option, some, [], ◌∷◌, arith, nat_key, bytes_eq, subst, sym}
use cse_labs.StdMap.{lookup}
use cse_labs.Lock.Server.{new_lock_server, locked}
use cse_labs.Extent
use cse_labs.Extent.{data_of}
use cse_labs.Extent.Tests.{disk, alice, stack, stack-IsStack, slot-CanWrite}
use cse_labs.Extent.Client
use cse_labs.Extent.Client.{World, new_client}
use cse_labs.Extent.Client.Content.{CanWrite, get-Kept}
use cse_labs.Extent.Client.Coherence.{begin, Reach-IsCoherent}
use cse_labs.Ydb.{Status, ExtentClient}
use cse_labs.Ydb.Served.{extent_client}
use cse_labs.Ydb.Occ.{Transaction, Server, transaction_commit, validate}
use cse_labs.Ydb.Occ.Commit.{Outcome, Ended, transaction_commit_lem}

abbrev world : World
world = record {
  server = record { im = disk; clients = []; data_cache = []; attr_cache = [] };
  clients = λ name. new_client;
}

abbrev extents : ExtentClient (Option World)
extents = extent_client alice (λ w. stack) (λ w. stack-IsStack) (λ s i. s)

-- `a` is key 97 and `b` is key 98.
abbrev started : Transaction
started = record { read_log = (97, []) ∷ []; write_log = (98, 2 ∷ []) ∷ [] }

abbrev running : Server (Option World)
running = record { ec = some world; lc = new_lock_server; trans_id = 1; infos = (0, started) ∷ [] }

found : lookup 0 running.infos ≡ some started
unfolding lookup
found = refl

-- The state of the extents after the validation has read key 97.
validated : (validate extents running.ec started.read_log).0 ≡ some (Client.get world alice 97).0
unfolding validate Client.get Extent.get data_of lookup bytes_eq
validated = refl

room : extents.CanPut (validate extents running.ec started.read_log).0 98 (2 ∷ [])
room =
    let k = get-Kept world alice 97 in
    subst (λ s. extents.CanPut s 98 (2 ∷ [])) (sym validated)
      (
        k.coherent (Reach-IsCoherent (begin world.server)),
        subst (λ im. CanWrite im 98 (2 ∷ [])) (sym k.im)
            (slot-CanWrite 98 (2 ∷ []) (omega arith) (omega arith) (omega arith) (omega arith, tt)),
      )

transaction_commit_lem_example :
    (r : Server (Option World) × Status) × (transaction_commit extents running 0 ≡ some r)
    × Outcome extents running started r
    × Ended extents running 0 r.0
unfolding locked lookup
transaction_commit_lem_example =
    transaction_commit_lem extents running 0 started found refl (tt, tt) (λ e. (room, tt))
