-- ===== src/Prelude/Keys.antt =====
-- Keys of the containers: an equality test and the order by which the containers are sorted. A
-- byte string is the list of its bytes, ordered as `std::string` is.
use Prim.Native.Nat.{ℕ}
use mathlib.Core.Path.{◌≡◌, refl}
use mathlib.Core.Logic.{◌↔◌}
use mathlib.Core.Bool.{Bool, true, false, ◌&&◌}
use mathlib.Core.List.{List, [], ◌∷◌}
use native.Mathlib.Omega.{arith}
use cse_labs.Prelude.Tests.{ltb, ◌==◌ as nat_beq, ==_iff, if◌then◌else◌}

pub record Key {ℓ} (K : Type ℓ) : Type ℓ where
  pub beq : K → K → Bool
  pub blt : K → K → Bool
  pub beq_iff : (a b : K) → (beq a b ≡ true) ↔ (a ≡ b)

instance abbrev pub nat_key : Key ℕ
nat_key = record { beq = nat_beq; blt = ltb; beq_iff = ==_iff }

abbrev pub Bytes : Type 0
Bytes = List ℕ

unfoldable pub bytes_eq : Bytes → Bytes → Bool
bytes_eq [] [] = true
bytes_eq [] (y ∷ ys) = false
bytes_eq (x ∷ xs) [] = false
bytes_eq (x ∷ xs) (y ∷ ys) = nat_beq x y && bytes_eq xs ys

unfoldable pub bytes_lt : Bytes → Bytes → Bool
bytes_lt xs [] = false
bytes_lt [] (y ∷ ys) = true
bytes_lt (x ∷ xs) (y ∷ ys) = let rest = bytes_lt xs ys in if nat_beq x y then rest else ltb x y

bytes_eq_to : (xs ys : Bytes) → bytes_eq xs ys ≡ true → xs ≡ ys
unfolding bytes_eq
bytes_eq_to [] [] h = refl
bytes_eq_to [] (y ∷ ys) h = cc
bytes_eq_to (x ∷ xs) [] h = cc
bytes_eq_to (x ∷ xs) (y ∷ ys) h = ground (arith, bytes_eq_to xs ys)

pub bytes_eq_refl : (xs : Bytes) → bytes_eq xs xs ≡ true
unfolding bytes_eq
bytes_eq_refl [] = refl
bytes_eq_refl (x ∷ xs) = ground (arith, bytes_eq_refl xs)

pub bytes_eq_iff : (xs ys : Bytes) → (bytes_eq xs ys ≡ true) ↔ (xs ≡ ys)
bytes_eq_iff xs ys = (bytes_eq_to xs ys, λ e. rw e (bytes_eq_refl ys))

instance abbrev pub bytes_key : Key Bytes
bytes_key = record { beq = bytes_eq; blt = bytes_lt; beq_iff = bytes_eq_iff }
