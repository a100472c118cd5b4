-- ===== src/Ydb.antt =====
-- The key-value database: ydb_protocol.h, the hash of the keys that all three servers share, and the
-- extent client that they stand on.
pub mod Basic
pub mod Occ
pub mod Locking
pub mod Served
mod Tests
use cse_labs.Prelude.{
  ℕ, ◌+◌, ◌-◌, ◌*◌, ◌%◌, ◌^◌, ◌<◌, ◌≡◌, refl, List, [], ◌∷◌, arith, ltb, ◌==◌, if◌then◌else◌, Bytes,
  All,
}

-- `ydb_protocol::xxstatus`
pub data Status : Type 0 where
  ok rpcerr abort transidinv : Status

-- `HASHSIZE`, which is `INODE_NUM`.
abbrev pub hashsize : ℕ
hashsize = 1024

-- A `char` (signed, as on x86) as an `unsigned long long`.
unfoldable pub char_to_u64 : ℕ → ℕ
char_to_u64 c = if ltb c 128 then c else c + 2 ^ 64 - 256

-- The loop of the hash, `h = key[i] + h * 31` in 64 bits.
unfoldable pub hash_from : ℕ → Bytes → ℕ
hash_from h [] = h
hash_from h (c ∷ cs) = hash_from ((char_to_u64 c + h * 31) % 2 ^ 64) cs

-- `hash`, `hash_2pl` and `hash_occ`: the number of the inode that holds a key.
unfoldable pub hash : Bytes → ℕ
hash key = hash_from 0 key % hashsize

-- The extent client, which the servers call: what each extent holds, and how a put for which the extent
-- server has room changes it. The states take in one where a call has failed its VERIFY. The
-- one-argument `remove` that the servers call is not among the client's functions any more: nothing is
-- said of it.
pub record ExtentClient (S : Type 0) : Type 1 where
  pub value : S → ℕ → Bytes
  pub CanPut : S → ℕ → Bytes → Type 0
  pub get : S → ℕ → Bytes × S
  pub put : S → ℕ → Bytes → S
  pub remove : S → ℕ → S
  pub get_value : (s : S) (i : ℕ) → (get s i).0 ≡ value s i
  pub get_keeps : (s : S) (i j : ℕ) → value (get s i).1 j ≡ value s j
  pub put_value :
      (s : S) (i j : ℕ) (b : Bytes)
      → CanPut s i b
      → value (put s i b) j ≡ (if i == j then b else value s j)

-- A client that holds each extent in a map.
abbrev pub map_client : ExtentClient (ℕ → Bytes)
map_client = record {
  value = λ s i. s i;
  CanPut = λ s i b. Unit {0};
  get = λ s i. (s i, s);
  put = λ s i b j. if i == j then b else s j;
  remove = λ s i j. if i == j then [] else s j;
  get_value = λ s i. refl;
  get_keeps = λ s i j. refl;
  put_value = λ s i j b h. refl;
}
