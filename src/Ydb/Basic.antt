-- ===== src/Ydb/Basic.antt =====
-- ydb_server.cc: the server without transactions.
use cse_labs.Prelude.{ℕ, ◌+◌, ◌*◌, ◌%◌, ◌^◌, ◌<◌, ◌≡◌, refl, [], ◌∷◌, arith, Bytes, All}
use cse_labs.Ydb.{Status, ok, hashsize, char_to_u64, hash_from, hash, ExtentClient}

-- A handler's state of the extents, status and value.
pub record Reply (S : Type 0) : Type 0 where
  pub ec : S
  pub status : Status
  pub value : Bytes

module _ {S : Type 0} (c : ExtentClient S) where
  -- `transaction_begin`, `transaction_commit` and `transaction_abort` do nothing.
  unfoldable pub transaction_commit : S → ℕ → S × Status
  transaction_commit s id = (s, ok)

  unfoldable pub get : S → Bytes → Reply S
  get s key = let (v, s') = c.get s (hash key) in record { ec = s'; status = ok; value = v }

  unfoldable pub set : S → Bytes → Bytes → S × Status
  set s key value = (c.put s (hash key) value, ok)

  unfoldable pub del : S → Bytes → S × Status
  del s key = (c.remove s (hash key), ok)

-- What the hash means without overflow: the key's bytes as digits to the base 31.
unfoldable pub poly : ℕ → Bytes → ℕ
poly h [] = h
poly h (c ∷ cs) = poly (c + h * 31) cs

hash_from-poly :
    (g h : ℕ) (key : Bytes)
    → g % 1024 ≡ h % 1024
    → All (λ c. c < 128) key
    → hash_from g key % 1024 ≡ poly h key % 1024
unfolding hash_from poly
hash_from-poly g h [] e a = e
hash_from-poly g h (c ∷ cs) e a =
    hash_from-poly ((char_to_u64 c + g * 31) % 2 ^ 64) (c + h * 31) cs
      (unfold char_to_u64 in ground (arith, a.0)) a.1

-- The hash is the number of an inode, and for a key of ASCII characters the overflow of its 64 bits
-- does not show: it is the value of the characters to the base 31, modulo the number of inodes.
pub hash-poly :
    (key : Bytes)
    → (hash key < hashsize) × (All (λ c. c < 128) key → hash key ≡ poly 0 key % hashsize)
unfolding hash
hash-poly key = (omega arith, λ a. hash_from-poly 0 0 key refl a)
