-- ===== src/Rpc/Marshall/Containers.antt =====
-- rpc/marshall.h: the operators for vectors and maps, over those of their elements.
pub mod Vectors
pub mod Maps
pub mod RoundTrip
use cse_labs.Prelude.{
  ℕ, zero, suc, ◌+◌, ◌%◌, ◌^◌, ◌<◌, ◌≤◌, ◌≡◌, Option, none, some, List, [], ◌∷◌, ◌++◌, arith, Bytes,
  length, ◌>>=◌, Key,
}
use cse_labs.StdMap.{Map, insert}
use cse_labs.Rpc.Marshall.{Marshall, Unmarshall, put_u32, get_u32}
use cse_labs.Rpc.Marshall.Encode.{HasBuffer, Puts, Short}
use cse_labs.Rpc.Marshall.RoundTrip.{reader}

-- The two operators of a type: what it writes is read back.
pub record Operators (A : Type 0) : Type 1 where
  pub put : Marshall → A → Option Marshall
  pub get : Unmarshall → Option (A × Unmarshall)
  pub enc : A → Bytes
  pub Fits : A → Type 0
  pub puts : (m : Marshall) (a : A) → HasBuffer m → Short m (enc a) → Puts m (enc a) (put m a)
  pub gets :
      (i : ℕ) (a : A) (r : Bytes)
      → Fits a
      → i + length (enc a) + length r < 2 ^ 31
      → get (reader i (enc a ++ r)) ≡ some (a, reader (i + length (enc a)) r)

module _ {A : Type 0} (o : Operators A) where
  unfoldable pub put_each : Marshall → List A → Option Marshall
  put_each m [] = some m
  put_each m (x ∷ v) = o.put m x >>= λ m1. put_each m1 v

  unfoldable pub put_vector : Marshall → List A → Option Marshall
  put_vector m v = put_u32 m (length v % 2 ^ 32) >>= λ m1. put_each m1 v

  -- `n` rounds, with `push_back`.
  unfoldable pub get_each : Unmarshall → ℕ → List A → Option (List A × Unmarshall)
  get_each u zero v = some (v, u)
  get_each u (suc n) v = o.get u >>= λ (z, u1). get_each u1 n (v ++ z ∷ [])

  -- Behind what the vector holds.
  unfoldable pub get_vector : Unmarshall → List A → Option (List A × Unmarshall)
  get_vector u v = let (n, u1) = get_u32 u in get_each u1 n v

module _ {A B : Type 0} (o : Operators A) (p : Operators B) ⦃k : Key A⦄ where
  unfoldable pub put_entries : Marshall → Map A B → Option Marshall
  put_entries m [] = some m
  put_entries m ((a, b) ∷ d) = o.put m a >>= λ m1. p.put m1 b >>= λ m2. put_entries m2 d

  unfoldable pub put_map : Marshall → Map A B → Option Marshall
  put_map m d = put_u32 m (length d % 2 ^ 32) >>= λ m1. put_entries m1 d

  unfoldable pub get_entries : Unmarshall → ℕ → Map A B → Option (Map A B × Unmarshall)
  get_entries u zero d = some (d, u)
  get_entries u (suc n) d =
      o.get u >>= λ (a, u1). p.get u1 >>= λ (b, u2). get_entries u2 n (insert a b d)

  -- The map is cleared first.
  unfoldable pub get_map : Unmarshall → Map A B → Option (Map A B × Unmarshall)
  get_map u d = let (n, u1) = get_u32 u in get_entries u1 n []
