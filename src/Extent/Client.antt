-- ===== src/Extent/Client.antt =====
-- extent_client.h and extent_client.cc: the clients of the extent server, each with a cache that the
-- server keeps up to date. The functions run a call to its end, with the calls that the server sends
-- meanwhile, of which every one is taken to arrive; Race has a `get` that another call comes into.
-- `none` is a fault of the server.
pub mod Delivery
pub mod Agreement
pub mod Fetch
pub mod Handlers
pub mod Coherence
pub mod Content
mod Race
pub mod Creation
pub mod Served
mod Tests
use cse_labs.Prelude.{
  ℕ, Bool, true, false, Option, none, some, List, [], ◌∷◌, ◌==◌, if◌then◌else◌, Bytes, bytes_key,
  nat_key, ◌>>=◌,
}
use cse_labs.StdMap.{Map, lookup, insert, erase}
use cse_labs.Fs.Inodes.{Attr}
use cse_labs.Extent
use cse_labs.Extent.{Call, update_handler, remove_handler, Server, Stack, get_attributes}

pub record Client : Type 0 where
  pub data_cache : Map ℕ Bytes
  pub attr_cache : Map ℕ Attr

-- The caches of a new client are empty.
abbrev pub new_client : Client
new_client = record { data_cache = []; attr_cache = [] }

-- The server, and the client of each name.
pub record World : Type 0 where
  pub server : Server
  pub clients : Bytes → Client

-- `extent_client::update_handler`
abbrev handle_update : Client → ℕ → Attr → Bytes → Client
handle_update c eid a buf = record c {
  data_cache = insert eid buf c.data_cache;
  attr_cache = insert eid a c.attr_cache;
}

-- `extent_client::remove_handler`
abbrev handle_remove : Client → ℕ → Client
handle_remove c eid = record c {
  data_cache = erase eid c.data_cache;
  attr_cache = erase eid c.attr_cache;
}

abbrev pub set_client : (Bytes → Client) → Bytes → Client → Bytes → Client
set_client cs name c other = if bytes_key.beq name other then c else cs other

unfoldable pub deliver : Call → (Bytes → Client) → Bytes → Client
deliver (update_handler name eid a buf) cs = set_client cs name (handle_update (cs name) eid a buf)
deliver (remove_handler name eid) cs = set_client cs name (handle_remove (cs name) eid)

unfoldable pub deliver_all : List Call → (Bytes → Client) → Bytes → Client
deliver_all [] cs = cs
deliver_all (call ∷ calls) cs = deliver_all calls (deliver call cs)

-- What the server did, and the calls that it sent.
abbrev pub answered : World → Server → List Call → World
answered w s calls = record { server = s; clients = deliver_all calls w.clients }

-- The call of `get` that the server answers, and what the client does with the answer. The server has
-- no lock: other calls may come between the two.
abbrev pub get_called : World → Bytes → ℕ → World × Bytes
get_called w name eid =
    let (s, buf) = Extent.get w.server name eid in (record w { server = s }, buf)

abbrev pub get_returned : World → Bytes → ℕ → Bytes → World
get_returned w name eid buf =
    let c = w.clients name in
    record w {
      clients = set_client w.clients name (record c { data_cache = insert eid buf c.data_cache });
    }

unfoldable pub get : World → Bytes → ℕ → World × Bytes
get w name eid =
    let c = w.clients name in
    elim (lookup eid c.data_cache) [
      | some buf ↦ (w, buf)
      | none ↦ let (w', buf) = get_called w name eid in (get_returned w' name eid buf, buf)
    ]

unfoldable pub getattr : World → Bytes → ℕ → World × Attr
getattr w name eid =
    let c = w.clients name in
    elim (lookup eid c.attr_cache) [
      | some a ↦ (w, a)
      | none ↦
          let (s, a) = get_attributes w.server name eid in
          (
            record {
              server = s;
              clients =
                  set_client w.clients name (record c { attr_cache = insert eid a c.attr_cache });
            },
            a,
          )
    ]

unfoldable pub put : World → Bytes → ℕ → Bytes → Stack → Option World
put w name eid buf t =
    Extent.put w.server name eid buf t >>= λ (s, calls). some (answered w s calls)

-- `createFileAndDir`, which does not look at the status.
unfoldable pub create_file_and_dir : World → Bytes → ℕ → Bytes → ℕ → Stack → Option (ℕ × World)
create_file_and_dir w client type name parent t =
    Extent.create w.server type client parent name t >>= λ (r, s, calls).
    some (r.1, answered w s calls)

unfoldable pub create_symlink :
    World → Bytes → Bytes → Bytes → ℕ → Stack → Stack → Option (ℕ × World)
create_symlink w client name link parent t1 t2 =
    Extent.create_symlink w.server client parent name link t1 t2 >>= λ (eid, s, calls).
    some (eid, answered w s calls)

unfoldable pub remove : World → Bytes → ℕ → ℕ → Bytes → Stack → Option World
remove w client eid parent name t =
    Extent.remove w.server client parent name eid t >>= λ (s, calls). some (answered w s calls)
