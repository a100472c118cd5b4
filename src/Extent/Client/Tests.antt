-- ===== src/Extent/Client/Tests.antt =====
-- Two clients of a new file system: one has the root directory cached when the other puts into it.
use cse_labs.Prelude.{◌≡◌, some, [], ◌∷◌, arith, Bytes}
use cse_labs.Fs.Manager
use cse_labs.Extent.{Server, Stack, data_of, attr_of, register}
use cse_labs.Extent
use cse_labs.StdMap.{lookup, insert}
use cse_labs.Extent.Tests.{disk, disk-IsNew, stack, stack-IsStack, room, alice}
use cse_labs.Extent.Client.{World, new_client, get, getattr, put, get_called, get_returned}
use cse_labs.Extent.Client.Race.{stale_get}
use cse_labs.Extent.Client.Coherence.{Reach, begin, next, reads, caches_hidden, get-put_any}

abbrev bob : Bytes
bob = 98 ∷ []

abbrev start : World
start = record {
  server = record { im = disk; clients = []; data_cache = []; attr_cache = [] };
  clients = λ name. new_client;
}

abbrev cached : World
cached = (get start bob 1).0

cached-Reach : Reach cached
cached-Reach = next (begin start.server) (reads start bob 1)

caches_hidden_example :
    ((get cached bob 1).1 ≡ data_of cached.server 1)
    × ((getattr cached bob 1).1 ≡ attr_of cached.server 1)
caches_hidden_example = caches_hidden bob 1 cached-Reach

get-put_any_example :
    (w' : World) × (put cached alice 1 (104 ∷ 105 ∷ []) stack ≡ some w')
    × (Manager.read_file w'.server.im 1 ≡ some (some (104 ∷ 105 ∷ [])))
    × ((reader : Bytes) → (get w' reader 1).1 ≡ 104 ∷ 105 ∷ [])
unfolding get lookup Extent.get register data_of insert
get-put_any_example =
    get-put_any alice 1 (104 ∷ 105 ∷ []) stack cached-Reach (omega arith) disk-IsNew.root
      (omega arith) room (omega arith, (omega arith, tt)) stack-IsStack

-- Bob asks for the root directory, alice puts into it, and bob stores the answer.
stale_get_example :
    (w' : World) × (put (get_called start bob 1).0 alice 1 (104 ∷ 105 ∷ []) stack ≡ some w')
    × (data_of w'.server 1 ≡ 104 ∷ 105 ∷ [])
    × ((get (get_returned w' bob 1 (get_called start bob 1).1) bob 1).1 ≡ data_of start.server 1)
stale_get_example =
    stale_get start bob alice 1 (104 ∷ 105 ∷ []) stack (omega arith) disk-IsNew.root (omega arith)
      room (omega arith, (omega arith, tt)) stack-IsStack
