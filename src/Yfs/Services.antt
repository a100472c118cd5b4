-- ===== src/Yfs/Services.antt =====
-- What yfs_client calls: the extents (extent_client.h) and the locks (lock_client.h), as the
-- operations that it uses and what it relies on. A call that the server does not survive is `none`,
-- and so is an `acquire` that waits for ever.
use cse_labs.Prelude.{
  ℕ, ◌<◌, ◌^◌, ◌≡◌, Bool, true, false, Option, some, ◌++◌, ◌==◌, if◌then◌else◌, Bytes, nat_key,
}
use cse_labs.Fs.Inodes.{Attr}
use cse_labs.Lock.Server.{LockServer, locked, granted, acquire, release}
use cse_labs.Lock.Server.Serial.{acquire_free, release_frees}
use cse_labs.Yfs.Dirs.{dir_entry}

-- `getattr` has no attributes when its status is not OK. `CanPut` and `CanCreate` say that the server
-- has the room that the call needs.
pub record Extents (E : Type 0) : Type 1 where
  pub value : E → ℕ → Bytes
  pub CanPut : E → ℕ → Bytes → Type 0
  pub CanCreate : E → ℕ → Bytes → ℕ → Type 0
  pub get : E → ℕ → Option (Bytes × E)
  pub getattr : E → ℕ → Option (Option Attr × E)
  pub put : E → ℕ → Bytes → Option E
  pub create : E → ℕ → Bytes → ℕ → Option (ℕ × E)
  pub create_symlink : E → Bytes → Bytes → ℕ → Option (ℕ × E)
  pub remove : E → ℕ → ℕ → Bytes → Option E
  pub get_ok :
      (e : E) (i : ℕ)
      → (e' : E) × (get e i ≡ some (value e i, e'))
        × ((j : ℕ) → value e' j ≡ value e j)
        × ((j : ℕ) (b : Bytes) → CanPut e j b → CanPut e' j b)
        × ((t : ℕ) (n : Bytes) (p : ℕ) → CanCreate e t n p → CanCreate e' t n p)
  pub put_ok :
      (e : E) (i : ℕ) (b : Bytes)
      → CanPut e i b
      → (e' : E) × (put e i b ≡ some e')
        × ((j : ℕ) → value e' j ≡ (if i == j then b else value e j))
  pub create_ok :
      (e : E) (t : ℕ) (name : Bytes) (parent : ℕ)
      → CanCreate e t name parent
      → (e' : E) × (id : ℕ) × (create e t name parent ≡ some (id, e'))
        × (value e' parent ≡ value e parent ++ dir_entry name id)
        × (id < 2 ^ 64)

pub record Locks (L : Type 0) : Type 0 where
  pub held : L → ℕ → Bool
  pub acquire : L → ℕ → Option L
  pub release : L → ℕ → L
  pub acquire_ok :
      (l : L) (i : ℕ)
      → held l i ≡ false
      → (l' : L) × (acquire l i ≡ some l')
        × ((j : ℕ) → held l' j ≡ (if i == j then true else held l j))
  pub release_ok : (l : L) (i j : ℕ) → held (release l i) j ≡ (if i == j then false else held l j)

-- The lock server keeps what the operations rely on.
abbrev pub lock_server_locks : Locks LockServer
lock_server_locks = record {
  held = locked;
  acquire = λ l i. granted (acquire l i);
  release = release;
  acquire_ok = acquire_free;
  release_ok = release_frees;
}
