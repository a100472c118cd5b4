-- ===== src/Fs/Manager/Grow.antt =====
-- A file grows: `alloc_nth_block`, and the loop over the new blocks.
use cse_labs.Prelude.{
  ℕ, zero, suc, ◌+◌, ◌-◌, ◌<◌, ◌≤◌, ◌≡◌, refl, subst, ◌∙◌, ◌≢◌, inl, inr, Option, some, arith, ◌==◌,
  ltb, if◌then◌else◌, get_or-set_self, false, Bool-cases, lt→ltb, ltb→lt,
}
use cse_labs.Fs.Inode.{Inode}
use cse_labs.Fs.Disk.{
  BlockManager, initial_sb, fileblock, block_num, ndirect, maxfile, get_block, read_block,
  alloc_block,
}
use cse_labs.Fs.Disk.Alloc.{free_count, alloc_block_lem, free_count-Takes}
use cse_labs.Fs.Manager.{need_indirect, set_indirect, alloc_nth_block, alloc_blocks}
use cse_labs.Fs.Manager.Layout.{indirect, Layout}
use cse_labs.Fs.Manager.Extend.{
  taken, with_block, stored, Layout-direct, Layout-indirect, Layout-far, indirect-with_block,
}

-- Free blocks, and one more if the block of addresses is there already.
abbrev pub spare : BlockManager → Inode → ℕ
spare bm ino = free_count bm + (if indirect ino == 0 then 0 else 1)

-- The file has `k` blocks, and what is left of the spare blocks.
pub record Grown (type rest k : ℕ) (r : BlockManager × Inode) : Type 0 where
  pub layout : Layout r.0 r.1 k
  pub left : spare r.0 r.1 ≡ rest
  pub kept : r.1.type ≡ type

abbrev pub Gives {ℓ} : {A : Type ℓ} → (A → Type 0) → Option A → Type ℓ
Gives {A = A} P o = (a : A) × (o ≡ some a) × P a

pub taken-alloc :
    (bm : BlockManager)
    → bm.sb ≡ initial_sb
    → 0 < free_count bm
    → (b : ℕ) × (alloc_block bm ≡ (taken bm b, b))
      × (bm.using_blocks b ≡ 0)
      × (1035 ≤ b)
      × (b < 32768)
      × (free_count (taken bm b) + 1 ≡ free_count bm)
taken-alloc bm f h =
    let t = (alloc_block_lem bm (rw f (omega arith))).0 h in
    (
      (alloc_block bm).1,
      ground (arith, t.result),
      t.was_free,
      subst (λ s. fileblock s ≤ (alloc_block bm).1) f t.low,
      t.high,
      (let e = free_count-Takes t in rw t.result at e),
    )

direct-Grown :
    {bm : BlockManager} {ino : Inode} {k : ℕ}
    → Layout bm ino k
    → k < ndirect
    → 2 ≤ spare bm ino
    → Gives (λ r. Grown ino.type (spare bm ino - 1) (k + 1) r) (alloc_nth_block bm ino k)
unfolding alloc_nth_block
direct-Grown {bm} {ino} {k} l h s =
    let (b, e, z, lo, hi, c) = taken-alloc bm l.formatted (ground arith) in
    (
      (taken bm b, with_block ino k b),
      rw (lt→ltb k ndirect h, e) refl,
      record {
        layout = Layout-direct l b z lo hi h;
        left = ground (arith, c, indirect-with_block l b z lo hi h);
        kept = refl;
      },
    )

pub record Indirect (bm : BlockManager) (ino : Inode) (k : ℕ) (r : BlockManager × Inode)
    : Type 0 where
  pub layout : Layout r.0 r.1 k
  pub present : indirect r.1 ≢ 0
  pub room : 1 ≤ free_count r.0
  pub same : spare r.0 r.1 ≡ spare bm ino
  pub kept : r.1.type ≡ ino.type

pub need_indirect-Indirect :
    {bm : BlockManager} {ino : Inode} {k : ℕ}
    → Layout bm ino k
    → ndirect ≤ k
    → 2 ≤ spare bm ino
    → Indirect bm ino k (need_indirect bm ino)
unfolding need_indirect
need_indirect-Indirect {bm} {ino} {k} l h s = elim (Bool-cases (indirect ino == 0)) [
  | inl p ↦
      let (b, e, z, lo, hi, c) = taken-alloc bm l.formatted (ground arith) in
      let at : ndirect ≡ k = ground (arith, l.indirect_needed) in
      let new : indirect (with_block ino ndirect b) ≡ b =
        get_or-set_self ino.blocks ndirect b 0 (omega (arith, l.full)) in
      rw (p, e)
        (record {
          layout = Layout-indirect l b z lo hi at;
          present = λ q. omega (arith, new);
          room = ground (arith, c);
          same = ground (arith, c, new);
          kept = refl;
        })
  | inr p ↦ rw p (record {
    layout = l;
    present = λ q. ground arith;
    room = ground arith;
    same = refl;
    kept = refl;
  })
]

set_indirect-Grown :
    {bm : BlockManager} {ino : Inode} {k : ℕ}
    → Layout bm ino k
    → ndirect ≤ k
    → k < maxfile
    → indirect ino ≢ 0
    → 1 ≤ free_count bm
    → Gives (λ r. Grown ino.type (spare bm ino - 1) (k + 1) r) (set_indirect bm ino (k - ndirect))
unfolding set_indirect get_block read_block
set_indirect-Grown {bm} {ino} {k} l h h' x s =
    let (b, e, z, lo, hi, c) = taken-alloc bm l.formatted s in
    (
      (stored l b z lo hi, ino),
      rw (lt→ltb (indirect ino) block_num l.indirect_high, e) refl,
      record { layout = Layout-far l b z lo hi h h' x; left = ground (arith, c); kept = refl },
    )

far-Grown :
    {bm : BlockManager} {ino : Inode} {k : ℕ}
    → Layout bm ino k
    → ndirect ≤ k
    → k < maxfile
    → 2 ≤ spare bm ino
    → Gives (λ r. Grown ino.type (spare bm ino - 1) (k + 1) r) (alloc_nth_block bm ino k)
unfolding alloc_nth_block
far-Grown {bm} {ino} {k} l h h' s =
    let i = need_indirect-Indirect l h s in
    let (r, e, g) = set_indirect-Grown i.layout h h' i.present i.room in
    let skip : ltb k ndirect ≡ false = ground arith in
    (
      r,
      rw (skip, lt→ltb k maxfile h') e,
      record { layout = g.layout; left = omega (arith, g.left, i.same); kept = g.kept ∙ i.kept },
    )

-- `alloc_nth_block` for the block behind the last one: the file has that block too, and one spare
-- block is used up.
pub alloc_nth_block-Grown :
    {bm : BlockManager} {ino : Inode} {k : ℕ}
    → Layout bm ino k
    → k < maxfile
    → 2 ≤ spare bm ino
    → Gives (λ r. Grown ino.type (spare bm ino - 1) (k + 1) r) (alloc_nth_block bm ino k)
alloc_nth_block-Grown {k = k} l h s = elim (Bool-cases (ltb k ndirect)) [
  | inl p ↦ direct-Grown l (ltb→lt k ndirect p) s
  | inr p ↦ far-Grown l (ground arith) h s
]

pub alloc_blocks-Grown :
    (n : ℕ) {bm : BlockManager} {ino : Inode} (k : ℕ)
    → Layout bm ino k
    → k + n ≤ maxfile
    → n + 1 ≤ spare bm ino
    → Gives (λ r. Grown ino.type (spare bm ino - n) (k + n) r) (alloc_blocks bm ino k n)
unfolding alloc_blocks
alloc_blocks-Grown zero {bm} {ino} k l h s = (
  (bm, ino),
  refl,
  record { layout = subst (λ j. Layout bm ino j) (omega arith) l; left = omega arith; kept = refl },
)
alloc_blocks-Grown (suc n) {bm} {ino} k l h s =
    let (r, e, g) = alloc_nth_block-Grown l (omega arith) (omega arith) in
    let (r', e', g') =
      alloc_blocks-Grown n (k + 1) g.layout (omega arith) (omega (arith, g.left)) in
    (
      r',
      rw e e',
      record {
        layout = subst (λ j. Layout r'.0 r'.1 j) (omega arith) g'.layout;
        left = omega (arith, g.left, g'.left);
        kept = g'.kept ∙ g.kept;
      },
    )
