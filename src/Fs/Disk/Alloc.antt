-- ===== src/Fs/Disk/Alloc.antt =====
-- The free blocks of the disk, and what `alloc_block` and `free_block` do to them.
use cse_labs.Prelude.{
  ℕ, zero, suc, ◌+◌, ◌-◌, ◌<◌, ◌≤◌, ◌≡◌, refl, inl, inr, arith, ◌==◌, if◌then◌else◌, Bool-cases,
}
use cse_labs.Fs.Disk.{BlockManager, update, alloc_from, alloc_block, fileblock, block_num}

-- How many of the `n` blocks from `i` on are free.
unfoldable pub free_from : (ℕ → ℕ) → ℕ → ℕ → ℕ
free_from using i zero = 0
free_from using i (suc n) = (if using i == 0 then 1 else 0) + free_from using (i + 1) n

-- The free blocks for the data of files.
abbrev pub free_count : BlockManager → ℕ
free_count bm = free_from bm.using_blocks (fileblock bm.sb) (block_num - fileblock bm.sb)

free_from-update_above :
    (using : ℕ → ℕ) (b v i n : ℕ) → b < i → free_from (update using b v) i n ≡ free_from using i n
unfolding free_from
free_from-update_above using b v i zero h = refl
free_from-update_above using b v i (suc n) h =
    ground (arith, free_from-update_above using b v (i + 1) n)

-- Marking a free block takes one from the count.
free_from-take :
    (using : ℕ → ℕ) (b i n : ℕ)
    → using b ≡ 0
    → i ≤ b
    → b < i + n
    → free_from (update using b 1) i n + 1 ≡ free_from using i n
unfolding free_from
free_from-take using b i zero z l h = absurd (omega arith)
free_from-take using b i (suc n) z l h = elim (Bool-cases (b == i)) [
  | inl p ↦ ground (arith, free_from-update_above using b 1 (i + 1) n)
  | inr p ↦ ground (arith, free_from-take using b (i + 1) n z)
]

-- `bm'` is `bm` with the free block `b` of the data marked.
pub record Takes (bm bm' : BlockManager) (b : ℕ) : Type 0 where
  pub was_free : bm.using_blocks b ≡ 0
  pub low : fileblock bm.sb ≤ b
  pub high : b < block_num
  pub result : bm' ≡ record bm { using_blocks = update bm.using_blocks b 1 }

abbrev FindsFrom : BlockManager → ℕ → ℕ → BlockManager × ℕ → Type 0
FindsFrom bm i n (bm', b) =
    (bm.using_blocks b ≡ 0)
    × (i ≤ b)
    × (b < i + n)
    × (bm' ≡ record bm { using_blocks = update bm.using_blocks b 1 })

alloc_from-finds :
    (bm : BlockManager) (i n : ℕ)
    → 0 < free_from bm.using_blocks i n
    → FindsFrom bm i n (alloc_from bm i n)
unfolding alloc_from free_from
alloc_from-finds bm i zero h = absurd (omega arith)
alloc_from-finds bm i (suc n) h = elim (Bool-cases (bm.using_blocks i == 0)) [
  | inl p ↦ rw p (ground arith, omega arith, omega arith, refl)
  | inr p ↦
      let rest = alloc_from-finds bm (i + 1) n (ground arith) in
      rw p (rest.0, omega (arith, rest.1), omega (arith, rest.2), rest.3)
]

alloc_from-fails :
    (bm : BlockManager) (i n : ℕ) → free_from bm.using_blocks i n ≡ 0 → alloc_from bm i n ≡ (bm, 0)
unfolding alloc_from free_from
alloc_from-fails bm i zero h = refl
alloc_from-fails bm i (suc n) h = ground (arith, alloc_from-fails bm (i + 1) n)

-- While a block for data is free, `alloc_block` finds one, marks it and changes nothing else; when
-- none is free it returns 0 and changes nothing.
pub alloc_block_lem :
    (bm : BlockManager)
    → fileblock bm.sb ≤ block_num
    → (0 < free_count bm → Takes bm (alloc_block bm).0 (alloc_block bm).1)
      × (free_count bm ≡ 0 → alloc_block bm ≡ (bm, 0))
unfolding alloc_block
alloc_block_lem bm fits = (
  λ h.
      let (z, l, u, e) = alloc_from-finds bm (fileblock bm.sb) (block_num - fileblock bm.sb) h in
      record { was_free = z; low = l; high = omega arith; result = e },
  λ h. alloc_from-fails bm (fileblock bm.sb) (block_num - fileblock bm.sb) h,
)

-- An allocation leaves one free block less.
pub free_count-Takes :
    {bm bm' : BlockManager} {b : ℕ} → Takes bm bm' b → free_count bm' + 1 ≡ free_count bm
free_count-Takes {bm} {b = b} t =
    let e =
      free_from-take bm.using_blocks b (fileblock bm.sb) (block_num - fileblock bm.sb) t.was_free
        t.low (omega (arith, t.high)) in
    rw (t.result) e

pub free_from-all :
    (using : ℕ → ℕ) (i n : ℕ)
    → ((j : ℕ) → i ≤ j → j < i + n → using j ≡ 0)
    → free_from using i n ≡ n
unfolding free_from
free_from-all using i zero h = refl
free_from-all using i (suc n) h =
    let rest = free_from-all using (i + 1) n (λ j p q. h j (omega arith) (omega arith)) in
    ground (arith, rest, h i)
