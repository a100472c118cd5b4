-- ===== src/Fs/Inodes/Alloc.antt =====
-- `alloc_inode`: which inode it takes, and what happens when there is none.
use cse_labs.Prelude.{
  ℕ, zero, suc, ◌+◌, ◌%◌, ◌^◌, ◌<◌, ◌≤◌, ◌≡◌, refl, ap, ◌∙◌, ◌≢◌, none, some, arith, ◌==◌, ltb,
  lt→ltb, Bool-cases, inl, inr, false,
}
use cse_labs.Fs.Inode.{Inode, IsInode, decode-IsInode}
use cse_labs.Fs.Disk.{BlockManager, inode_num}
use cse_labs.Fs.Manager.{get_inode}
use cse_labs.Fs.Manager.Grow.{Gives}
use cse_labs.Fs.Inodes.{cleared, alloc_inode_from, alloc_inode}
use cse_labs.Fs.Inodes.Table.{IsFormatted, slot, get_inode_lem, PutInode, put_inode-PutInode}

pub cleared-IsInode :
    (ino : Inode) (type : ℕ) → type < 2 ^ 16 → IsInode ino → IsInode (cleared ino type)
cleared-IsInode ino type h v = record {
  type_fits = h;
  size_fits = omega arith;
  atime_fits = omega arith;
  mtime_fits = omega arith;
  ctime_fits = omega arith;
  blocks_fit = v.blocks_fit;
  full = v.full;
}

pub slot-IsInode : (bm : BlockManager) (i : ℕ) → IsFormatted bm → IsInode (slot bm i)
slot-IsInode bm i v = decode-IsInode (bm.d.blocks (i + 11)) (v.disk.bytes (i + 11))

pub get_slot :
    (bm : BlockManager) (i : ℕ)
    → IsFormatted bm
    → i < 1024
    → get_inode bm i ≡ some (some (slot bm i))
get_slot bm i v h = get_inode_lem bm i v ∙ (rw (lt→ltb i 1024 h) refl)

alloc_inode_from-first :
    (bm : BlockManager) (type i j n : ℕ)
    → IsFormatted bm
    → type < 2 ^ 16
    → j ≤ i
    → i < j + n
    → i < 1024
    → (slot bm i).type ≡ 0
    → ((m : ℕ) → j ≤ m → m < i → (slot bm m).type ≢ 0)
    → Gives
        (λ r. (r.1 ≡ i) × PutInode bm i (cleared (slot bm i) type) r.0)
        (alloc_inode_from bm type j n)
unfolding alloc_inode_from
alloc_inode_from-first bm type i j zero v t l u h z used = absurd (omega arith)
alloc_inode_from-first bm type i j (suc n) v t l u h z used = elim (Bool-cases (j == i)) [
  | inl p ↦
      let at : j ≡ i = ground arith in
      let (r, e, w) =
        put_inode-PutInode bm i (cleared (slot bm i) type) v
          (cleared-IsInode (slot bm i) type t (slot-IsInode bm i v)) h in
      let short : type % 2 ^ 16 ≡ type = omega arith in
      ((r, i), rw (at, get_slot bm i v h, z, short, e) refl, (refl, w))
  | inr p ↦
      let busy : ((slot bm j).type == 0) ≡ false = ground (arith, used j) in
      let rest =
        alloc_inode_from-first bm type i (j + 1) n v t (ground arith) (omega arith) h z
          (λ m q. used m (omega arith)) in
      rw (get_slot bm j v (omega arith), busy) rest
]

-- `alloc_inode` takes the first inode behind number 0 whose type is 0: it clears it but for its block
-- addresses, gives it the type, and leaves every other block of the disk as it was.
pub alloc_inode_first :
    (bm : BlockManager) (type i : ℕ)
    → IsFormatted bm
    → type < 2 ^ 16
    → 1 ≤ i
    → i < 1024
    → (slot bm i).type ≡ 0
    → ((m : ℕ) → 1 ≤ m → m < i → (slot bm m).type ≢ 0)
    → (r : BlockManager) × (alloc_inode bm type ≡ some (r, i))
      × PutInode bm i (cleared (slot bm i) type) r
unfolding alloc_inode
alloc_inode_first bm type i v t l h z used =
    let ((r, i'), e, (p, w)) =
      alloc_inode_from-first bm type i 1 inode_num v t l (omega arith) h z used in
    (r, e ∙ ap (λ k. some (r, k)) p, w)

alloc_inode_from-full :
    (bm : BlockManager) (type j n : ℕ)
    → IsFormatted bm
    → j + n ≡ 1025
    → 0 < n
    → ((m : ℕ) → j ≤ m → m < 1024 → (slot bm m).type ≢ 0)
    → alloc_inode_from bm type j n ≡ none
unfolding alloc_inode_from
alloc_inode_from-full bm type j zero v e p used = absurd (omega arith)
alloc_inode_from-full bm type j (suc n) v e p used = elim (Bool-cases (ltb j 1024)) [
  | inl q ↦
      let busy : ((slot bm j).type == 0) ≡ false = ground (arith, used j) in
      rw (get_slot bm j v (ground arith), busy)
        (alloc_inode_from-full bm type (j + 1) n v (omega arith) (ground arith)
          (λ m q. used m (omega arith)))
  | inr q ↦ rw (get_inode_lem bm j v, q) refl
]

-- When every inode is in use, `alloc_inode` reads through the null pointer that `get_inode` returns
-- for the number 1024.
pub alloc_inode_full :
    (bm : BlockManager) (type : ℕ)
    → IsFormatted bm
    → ((m : ℕ) → 1 ≤ m → m < 1024 → (slot bm m).type ≢ 0)
    → alloc_inode bm type ≡ none
unfolding alloc_inode
alloc_inode_full bm type v used =
    alloc_inode_from-full bm type 1 inode_num v refl (omega arith) used
