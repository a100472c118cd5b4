-- ===== src/Extent.antt =====
-- extent_server.h and extent_server.cc: the server of extents over the inode manager. A handler
-- returns the calls that it sends to clients, in their order; `none` is a fault. The buffer that
-- `write_file` has on its stack and the times are arguments.
pub mod Cache
pub mod Client
pub mod Tests
use cse_labs.Prelude.{
  ℕ, ◌+◌, ◌%◌, ◌^◌, Bool, true, false, Option, none, some, List, [], ◌∷◌, ◌++◌, ◌==◌, if◌then◌else◌,
  Bytes, bytes_key, nat_key, ◌>>=◌,
}
use cse_labs.StdMap.{Map, lookup, insert, erase, member, add}
use cse_labs.Fs.Disk.{BlockManager, inode_num}
use cse_labs.Fs.Manager.{Times, write_file, read_file}
use cse_labs.Fs.Inodes.{Attr, getattr, alloc_inode, remove_file, t_symlink, new_inode_manager}
use cse_labs.Yfs.Dirs.{dir_entry, split_at, slash}

pub record Server : Type 0 where
  pub im : BlockManager
  pub clients : Map Bytes (List ℕ)
  pub data_cache : Map ℕ Bytes
  pub attr_cache : Map ℕ Attr

-- `extent_server::extent_server`
unfoldable new_extent_server : Bytes → Option Server
new_extent_server memory = new_inode_manager memory >>= λ im.
    some (record { im = im; clients = []; data_cache = []; attr_cache = [] })

-- `rextent_protocol`: the calls of a client by the server.
pub data Call : Type 0 where
  update_handler : Bytes → ℕ → Attr → Bytes → Call
  remove_handler : Bytes → ℕ → Call

-- The status is OK but where `create` finds no inode.
pub data Status : Type 0 where
  ok noent : Status

-- What a `write_file` finds on its stack and on the clock.
pub record Stack : Type 0 where
  pub temp : Bytes
  pub times : Times

abbrev pub zero_attr : Attr
zero_attr = record { type = 0; atime = 0; mtime = 0; ctime = 0; size = 0 }

-- `id &= 0x7fffffff`
abbrev pub mask : ℕ → ℕ
mask id = id % 2 ^ 31

-- `broadcast`: a call to every client that knows the extent.
unfoldable pub broadcast : (Bytes → Call) → Map Bytes (List ℕ) → ℕ → List Call
broadcast call [] id = []
broadcast call ((client, ids) ∷ clients) id =
    let rest = broadcast call clients id in if member id ids then call client ∷ rest else rest

-- The string after `read_file`, which leaves the size 0 for a null inode.
abbrev pub content_of : Option Bytes → Bytes
content_of none = []
content_of (some b) = b

unfoldable pub update_cache : Server → ℕ → Option (Server × List Call)
update_cache s id = do
  found ← read_file s.im (mask id)
  let buf = content_of found
  attr ← getattr s.im (mask id) zero_attr
  some (
    record s {
      data_cache = insert (mask id) buf s.data_cache;
      attr_cache = insert (mask id) attr s.attr_cache;
    },
    broadcast (λ client. update_handler client (mask id) attr buf) s.clients (mask id),
  )

abbrev pub known : Option (List ℕ) → List ℕ
known none = []
known (some ids) = ids

-- `clients[client_id].insert(id)`
unfoldable pub register : Server → Bytes → ℕ → Server
register s client id = record s {
  clients = insert client (add id (known (lookup client s.clients))) s.clients;
}

-- `dataCache[id]` and `attrCache[id]`, which are made when they are not there.
unfoldable pub data_of : Server → ℕ → Bytes
data_of s id = elim (lookup id s.data_cache) [ none ↦ [] | some b ↦ b ]

unfoldable pub attr_of : Server → ℕ → Attr
attr_of s id = elim (lookup id s.attr_cache) [ none ↦ zero_attr | some a ↦ a ]

abbrev pub touch_data : Server → ℕ → Server
touch_data s id = record s { data_cache = insert id (data_of s id) s.data_cache }

unfoldable pub put : Server → Bytes → ℕ → Bytes → Stack → Option (Server × List Call)
put s client id buf w = do
  im ← write_file s.im (mask id) buf w.temp w.times
  (s', calls) ← update_cache (record s { im = im }) (mask id)
  some (register s' client (mask id), calls)

unfoldable pub get : Server → Bytes → ℕ → Server × Bytes
get s client id = (register (touch_data s id) client id, data_of s id)

unfoldable pub get_attributes : Server → Bytes → ℕ → Server × Attr
get_attributes s client id = (
  register (record s { attr_cache = insert id (attr_of s id) s.attr_cache }) client id,
  attr_of s id,
)

-- The part of `create` and `createSymLink` that enters the name in the parent.
unfoldable pub enter_name : Server → Bytes → ℕ → Bytes → ℕ → Stack → Option (Server × List Call)
enter_name s client parent name id w = do
  im ← write_file s.im (parent % 2 ^ 32) (data_of s parent ++ dir_entry name id) w.temp w.times
  (s1, calls1) ← update_cache (record (touch_data s parent) { im = im }) parent
  (s2, calls2) ← update_cache s1 id
  some (register s2 client id, calls1 ++ calls2)

unfoldable pub create :
    Server → ℕ → Bytes → ℕ → Bytes → Stack → Option ((Status × ℕ) × Server × List Call)
create s type client parent name w = alloc_inode s.im type >>= λ (im, id).
    if id == inode_num
    then some ((noent, id), record s { im = im }, [])
    else (enter_name (record s { im = im }) client parent name id w
        >>= (λ (s', calls). some ((ok, id), s', calls)))

unfoldable pub create_symlink :
    Server → Bytes → ℕ → Bytes → Bytes → Stack → Stack → Option (ℕ × Server × List Call)
create_symlink s client parent name link w1 w2 = do
  (im, id) ← alloc_inode s.im t_symlink
  im' ← write_file im id link w1.temp w1.times
  (s', calls) ← enter_name (record s { im = im' }) client parent name id w2
  some (id, s', calls)

unfoldable pub starts_with : Bytes → Bytes → Bool
starts_with [] buf = true
starts_with (x ∷ xs) [] = false
starts_with (x ∷ xs) (y ∷ ys) = let rest = starts_with xs ys in if x == y then rest else false

-- `buf.find(name)`: what stands before the first occurrence, and what stands from it on.
unfoldable pub find_text : Bytes → Bytes → Option (Bytes × Bytes)
find_text name [] = if starts_with name [] then some ([], []) else none
find_text name (x ∷ xs) =
    let rest = find_text name xs in
    if starts_with name (x ∷ xs)
    then some ([], x ∷ xs)
    else rest >>= (λ (before, from). some (x ∷ before, from))

-- Where no slash follows, the count of `erase` is the negated start: nothing is erased at the start 0,
-- and else all the rest.
abbrev erase_rest : Bytes → Bytes → Bytes
erase_rest [] from = from
erase_rest (x ∷ xs) from = x ∷ xs

-- `buf.erase` from the name to the next slash. A name that is not there makes `erase` throw.
unfoldable pub erase_name : Bytes → Bytes → Option Bytes
erase_name name buf = find_text name buf >>= λ (before, from). elim (split_at slash from) [
  | some (_, after) ↦ some (before ++ after)
  | none ↦ some (erase_rest before from)
]

unfoldable pub remove : Server → Bytes → ℕ → Bytes → ℕ → Stack → Option (Server × List Call)
remove s client parent name id w = do
  im1 ← remove_file s.im (mask id)
  buf ← erase_name name (data_of s parent)
  im2 ← write_file im1 (parent % 2 ^ 32) buf w.temp w.times
  (s', calls) ← update_cache (record (touch_data s parent) { im = im2 }) parent
  let s2 = record s' {
    data_cache = erase (mask id) s'.data_cache;
    attr_cache = erase (mask id) s'.attr_cache;
  }
  some (
    register s2 client (mask id),
    calls ++ broadcast (λ c. remove_handler c (mask id)) s2.clients (mask id),
  )
