-- ===== src/StdMap.antt =====
-- `std::map` and `std::set` as the program uses them: entries in the order of their keys.
pub mod Sorted
use cse_labs.Prelude.{
  ◌≡◌, refl, Bool, false, ◌||◌, Option, none, some, List, [], ◌∷◌, arith, if◌then◌else◌, Key,
}

abbrev pub Map {ℓ} : Type 0 → Type ℓ → Type ℓ
Map K V = List (K × V)

module _ {ℓ} {K : Type 0} {V : Type ℓ} ⦃k : Key K⦄ where
  -- `find`
  unfoldable pub lookup : K → List (K × V) → Option V
  lookup a [] = none
  lookup a ((b, v) ∷ m) = if k.beq b a then some v else lookup a m

  -- `operator[]` with an assignment
  unfoldable pub insert : K → V → List (K × V) → List (K × V)
  insert a v [] = (a, v) ∷ []
  insert a v ((b, w) ∷ m) =
      if k.beq b a
      then (a, v) ∷ m
      else if k.blt a b
      then (a, v) ∷ (b, w) ∷ m
      else (b, w) ∷ insert a v m

  -- `erase`
  unfoldable pub erase : K → List (K × V) → List (K × V)
  erase a [] = []
  erase a ((b, v) ∷ m) = let rest = erase a m in if k.beq b a then rest else (b, v) ∷ rest

  pub lookup-insert :
      (a b : K) (v : V) (m : List (K × V))
      → lookup b (insert a v m) ≡ (if k.beq a b then some v else lookup b m)
  unfolding lookup insert
  lookup-insert a b v [] = refl
  lookup-insert a b v ((c, w) ∷ m) =
      ground (arith, k.beq_iff a b, k.beq_iff c a, k.beq_iff c b, lookup-insert a b v m)

  pub lookup-erase :
      (a b : K) (m : List (K × V)) → lookup b (erase a m) ≡ (if k.beq a b then none else lookup b m)
  unfolding lookup erase
  lookup-erase a b [] = ground arith
  lookup-erase a b ((c, w) ∷ m) =
      ground (arith, k.beq_iff a b, k.beq_iff c a, k.beq_iff c b, lookup-erase a b m)

module _ {K : Type 0} ⦃k : Key K⦄ where
  -- `count`
  unfoldable pub member : K → List K → Bool
  member a [] = false
  member a (b ∷ s) = k.beq b a || member a s

  -- `insert`
  unfoldable pub add : K → List K → List K
  add a [] = a ∷ []
  add a (b ∷ s) = if k.beq b a then b ∷ s else if k.blt a b then a ∷ b ∷ s else b ∷ add a s

  abbrev pub IsDistinct : List K → Type 0
  IsDistinct [] = Unit {0}
  IsDistinct (a ∷ s) = (member a s ≡ false) × IsDistinct s

  pub member-add : (a b : K) (s : List K) → member b (add a s) ≡ (k.beq a b || member b s)
  unfolding member add
  member-add a b [] = refl
  member-add a b (c ∷ s) =
      ground (arith, k.beq_iff a b, k.beq_iff c a, k.beq_iff c b, member-add a b s)

  pub add-ne-nil : (a : K) (s : List K) → add a s ≡ [] → ⊥
  unfolding add
  add-ne-nil a [] e = cc
  add-ne-nil a (b ∷ s) e = ground arith

  pub add-IsDistinct :
      (a : K) (s : List K) → member a s ≡ false → IsDistinct s → IsDistinct (add a s)
  unfolding member add
  add-IsDistinct a [] h d = (refl, tt)
  add-IsDistinct a (b ∷ s) h d =
      ground (arith, k.beq_iff a b, k.beq_iff b a, member-add a b s, add-IsDistinct a s)
