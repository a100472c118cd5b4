-- ===== src/Yfs/Client/Tests.antt =====
-- A client over a lock server and an extent server with a directory of one file.
use cse_labs.Prelude.{
  ℕ, ◌≡◌, refl, false, some, [], ◌∷◌, List, arith, Bytes, bytes_eq, nat_key, All,
}
use cse_labs.Lock.Server.{LockServer, new_lock_server, locked}
use cse_labs.Extent.{data_of}
use cse_labs.Extent
use cse_labs.Extent.Tests.{disk, alice, stack, stack-IsStack}
use cse_labs.Extent.Client.{World, new_client}
use cse_labs.Extent.Client.Agreement.{IsCoherent}
use cse_labs.Extent.Client.Coherence.{begin, Reach-IsCoherent}
use cse_labs.Extent.Client.Served.{client_extents}
use cse_labs.Yfs.Dirs.{Dirent, Holds, print_dir, find_name, parse_dir, parse_dir-print_dir, IsEntry}
use cse_labs.Yfs.Buffers.{write_content}
use cse_labs.Yfs.Buffers.Written.{Written, write_content-Written}
use cse_labs.Yfs.Services.{Extents}
use cse_labs.StdMap
use cse_labs.Yfs.Client.{Yfs, lookup}

-- The directory 1 has the file `a`, which is 2.
abbrev pub entries : List Dirent
entries = record { name = 97 ∷ []; inum = 2 } ∷ []

entries-IsEntry : All IsEntry entries
entries-IsEntry = (record { plain = (λ e. omega (arith, e), tt); fits = omega arith }, tt)

-- A new disk, whose server has the directory in its cache, with one client of it; the lock server is
-- new.
abbrev pub world : World
world = record {
  server = record {
    im = disk;
    clients = [];
    data_cache = (1, print_dir entries) ∷ [];
    attr_cache = [];
  };
  clients = λ name. new_client;
}

pub world-IsCoherent : IsCoherent world
world-IsCoherent = Reach-IsCoherent (begin world.server)

abbrev pub extents : Extents World
extents = client_extents alice (λ w. stack) (λ w. stack-IsStack)

abbrev pub client : Yfs World LockServer
client = record { ec = world; lc = new_lock_server }

pub root-Holds : Holds (extents.value world 1) entries
unfolding Extent.Client.get Extent.get data_of StdMap.lookup
root-Holds = record { printed = refl; entries = entries-IsEntry }

pub unlocked : (i : ℕ) → locked client.lc i ≡ false
unfolding locked
unlocked i = unfold cse_labs.StdMap.lookup in refl

pub has_a : find_name entries (97 ∷ []) ≡ some 2
unfolding find_name
has_a = unfold bytes_eq in refl

parse_dir-print_dir_example : parse_dir (print_dir entries) ≡ some entries
parse_dir-print_dir_example = parse_dir-print_dir entries entries-IsEntry

write_content-Written_example :
    (r : Bytes) × (write_content (104 ∷ []) 3 (105 ∷ 106 ∷ []) ≡ some r)
    × Written (104 ∷ []) 3 (105 ∷ 106 ∷ []) r
write_content-Written_example =
    write_content-Written (104 ∷ []) 3 (105 ∷ 106 ∷ []) (omega arith) (omega arith)
