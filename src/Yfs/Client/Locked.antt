-- ===== src/Yfs/Client/Locked.antt =====
-- An operation under its lock: it gets the lock, and no lock is left held that was not held before.
use cse_labs.Prelude.{ℕ, ◌≡◌, refl, ◌∙◌, false, Option, some, arith, ◌==◌, if◌then◌else◌}
use cse_labs.Yfs.Services.{Extents, Locks}
use cse_labs.Yfs.Client.{Yfs, under_lock}

module _ {E L : Type 0} (x : Extents E) (k : Locks L) where
  -- The lock `i` is free afterwards, and every other lock is as before.
  abbrev pub Freed : L → L → ℕ → Type 0
  Freed l l' i = (j : ℕ) → k.held l' j ≡ (if i == j then false else k.held l j)

  pub under_lock-Freed {ℓ} :
      {R : Type ℓ} (s : Yfs E L) (i : ℕ) (work : E → Option (R × E)) {r : R} {e : E}
      → k.held s.lc i ≡ false
      → work s.ec ≡ some (r, e)
      → (s' : Yfs E L) × (under_lock x k s i work ≡ some (r, s')) × (s'.ec ≡ e) × Freed s.lc s'.lc i
  unfolding under_lock
  under_lock-Freed s i work {r} {e} free done =
      let (l, got, held) = k.acquire_ok s.lc i free in
      (
        record { ec = e; lc = k.release l i },
        rw (got, done) refl,
        refl,
        λ j. k.release_ok l i j ∙ ground (arith, held j),
      )
