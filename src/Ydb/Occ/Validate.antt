-- ===== src/Ydb/Occ/Validate.antt =====
-- The two loops of the commit: validation of the read log, and the writes.
use cse_labs.Prelude.{
  ℕ, ◌≡◌, refl, true, none, some, [], ◌∷◌, arith, Bytes, bytes_eq, bytes_eq_iff, All, nat_key,
  Bool-cases, inl, inr,
}
use cse_labs.StdMap.{Map, lookup}
use cse_labs.StdMap.Sorted.{IsSorted, lookup_below}
use cse_labs.Ydb.{ExtentClient}
use cse_labs.Ydb.Occ.{validate, write_all}

module _ {S : Type 0} (c : ExtentClient S) where
  -- Every value of the log is what its extent holds now.
  abbrev pub IsFresh : S → Map ℕ Bytes → Type 0
  IsFresh s log = All (λ e. c.value s e.0 ≡ e.1) log

  IsFresh-moved :
      (s s' : S) (log : Map ℕ Bytes)
      → ((j : ℕ) → c.value s' j ≡ c.value s j)
      → IsFresh s' log
      → IsFresh s log
  IsFresh-moved s s' [] h f = tt
  IsFresh-moved s s' ((i, v) ∷ log) h f = (ground (arith, h i, f.0), IsFresh-moved s s' log h f.1)

  pub validate-value :
      (s : S) (log : Map ℕ Bytes) (j : ℕ) → c.value (validate c s log).0 j ≡ c.value s j
  unfolding validate
  validate-value s [] j = refl
  validate-value s ((i, v) ∷ log) j =
      ground (arith, c.get_keeps s i j, validate-value (c.get s i).1 log j)

  pub validate-IsFresh : (s : S) (log : Map ℕ Bytes) → (validate c s log).1 ≡ true → IsFresh s log
  unfolding validate
  validate-IsFresh s [] h = tt
  validate-IsFresh s ((i, v) ∷ log) h = elim (Bool-cases (bytes_eq (c.get s i).0 v)) [
    | inl p ↦ (
      ground (arith, bytes_eq_iff (c.get s i).0 v, c.get_value s i),
      IsFresh-moved s (c.get s i).1 log (c.get_keeps s i)
          (validate-IsFresh (c.get s i).1 log (ground arith)),
    )
    | inr p ↦ ground arith
  ]

  pub IsFresh-validate : (s : S) (log : Map ℕ Bytes) → IsFresh s log → (validate c s log).1 ≡ true
  unfolding validate
  IsFresh-validate s [] h = refl
  IsFresh-validate s ((i, v) ∷ log) h =
      let same : (j : ℕ) → c.value s j ≡ c.value (c.get s i).1 j =
        λ j. ground (arith, c.get_keeps s i j) in
      ground (
        arith,
        bytes_eq_iff (c.get s i).0 v,
        c.get_value s i,
        h.0,
        IsFresh-validate (c.get s i).1 log (IsFresh-moved (c.get s i).1 s log same h.1),
      )

  -- What an extent holds after the writes of a log.
  abbrev pub written : (ℕ → Bytes) → Map ℕ Bytes → ℕ → Bytes
  written old log j = elim (lookup j log) [ none ↦ old j | some v ↦ v ]

  -- Each put of a log finds room when its turn comes.
  abbrev pub CanWrite : S → Map ℕ Bytes → Type 0
  CanWrite s [] = Unit {0}
  CanWrite s ((i, v) ∷ log) = c.CanPut s i v × CanWrite (c.put s i v) log

  pub write_all-value :
      (s : S) (log : Map ℕ Bytes) (j : ℕ)
      → IsSorted log
      → CanWrite s log
      → c.value (write_all c s log) j ≡ written (c.value s) log j
  unfolding write_all lookup
  write_all-value s [] j h room = refl
  write_all-value s ((i, v) ∷ log) j h room = ground (
    arith,
    write_all-value (c.put s i v) log j h.1 room.1,
    c.put_value s i j v room.0,
    lookup_below i i log (omega arith) h.0,
  )
