-- ===== src/StdMap/Sorted.antt =====
-- Maps with numbers for keys: the entries stand in the order of their keys.
use cse_labs.Prelude.{ℕ, ◌<◌, ◌≤◌, ◌≡◌, refl, none, List, [], ◌∷◌, arith, All, nat_key}
use cse_labs.StdMap.{lookup, insert}

module _ {V : Type 0} where
  abbrev pub Above : ℕ → List (ℕ × V) → Type 0
  Above a m = All (λ e. a < e.0) m

  abbrev pub IsSorted : List (ℕ × V) → Type 0
  IsSorted [] = Unit {0}
  IsSorted ((a, v) ∷ m) = Above a m × IsSorted m

  Above-mono : (a b : ℕ) (m : List (ℕ × V)) → a ≤ b → Above b m → Above a m
  Above-mono a b [] h p = tt
  Above-mono a b ((c, v) ∷ m) h p = (omega (arith, p.0), Above-mono a b m h p.1)

  insert-Above : (a b : ℕ) (v : V) (m : List (ℕ × V)) → b < a → Above b m → Above b (insert a v m)
  unfolding insert
  insert-Above a b v [] h p = (h, tt)
  insert-Above a b v ((c, w) ∷ m) h p = ground (arith, insert-Above a b v m h p.1)

  insert-IsSorted : (a : ℕ) (v : V) (m : List (ℕ × V)) → IsSorted m → IsSorted (insert a v m)
  unfolding insert
  insert-IsSorted a v [] s = (tt, tt)
  insert-IsSorted a v ((c, w) ∷ m) s =
      ground (arith, insert-IsSorted a v m s.1, insert-Above a c v m, Above-mono a c m)

  pub lookup_below : (a b : ℕ) (m : List (ℕ × V)) → a ≤ b → Above b m → lookup a m ≡ none
  unfolding lookup
  lookup_below a b [] h p = refl
  lookup_below a b ((c, v) ∷ m) h p = ground (arith, lookup_below a b m h p.1, p.0)
