-- ===== src/Fs/Inodes/Remove.antt =====
-- `remove_file`: the inode and the blocks of a removed file are free again.
use cse_labs.Prelude.{
  ℕ, zero, suc, ◌+◌, ◌<◌, ◌≤◌, ◌≡◌, refl, sym, ap, subst, ◌∙◌, ◌≢◌, some, arith, ◌==◌, ltb,
  if◌then◌else◌, Bool-cases, inl, inr, true, not, get_or,
}
use cse_labs.Fs.Inode.{Inode, decode}
use cse_labs.Fs.Disk.{BlockManager, ndirect, free_block, update}
use cse_labs.Fs.Manager.{get_nth_blockid, free_blocks, blocks_for}
use cse_labs.Fs.Manager.Layout.{IsDisk, Layout, nth, indirect, get_nth_blockid-Layout}
use cse_labs.Fs.Manager.Grow.{Gives}
use cse_labs.Fs.Manager.Data.{get_nth_blockid-with_using}
use cse_labs.Fs.Manager.Content.{FileAt, get_inode-found}
use cse_labs.Fs.Inodes.{cleared, free_inode, remove_inode, remove_file}
use cse_labs.Fs.Inodes.Table.{IsFormatted, slot, PutInode, put_inode-PutInode}
use cse_labs.Fs.Inodes.Alloc.{cleared-IsInode, slot-IsInode, get_slot}

free_inode_lem :
    (bm : BlockManager) (i : ℕ)
    → IsFormatted bm
    → i < 1024
    → (slot bm i).type ≢ 0
    → Gives (PutInode bm i (cleared (slot bm i) 0)) (free_inode bm i)
unfolding free_inode
free_inode_lem bm i v h u =
    let (r, e, w) =
      put_inode-PutInode bm i (cleared (slot bm i) 0) v
        (cleared-IsInode (slot bm i) 0 (omega arith) (slot-IsInode bm i v)) h in
    let busy : not ((slot bm i).type == 0) ≡ true = ground arith in
    (r, rw (get_slot bm i v h, busy) e, w)

-- What `free_blocks` does to the map of used blocks.
record Freed (bm : BlockManager) (ino : Inode) (j n : ℕ) (r : BlockManager) : Type 0 where
  disk_same : r.d ≡ bm.d
  sb_same : r.sb ≡ bm.sb
  freed : (m : ℕ) → j ≤ m → m < j + n → r.using_blocks (nth bm.d.blocks ino m) ≡ 0
  others :
      (b : ℕ)
      → ((m : ℕ) → j ≤ m → m < j + n → nth bm.d.blocks ino m ≢ b)
      → r.using_blocks b ≡ bm.using_blocks b

free_blocks-Freed :
    (n : ℕ) {bm : BlockManager} {ino : Inode} {k : ℕ} (u : ℕ → ℕ) (j : ℕ)
    → Layout bm ino k
    → j + n ≤ k
    → Gives
        (Freed (record bm { using_blocks = u }) ino j n)
        (free_blocks (record bm { using_blocks = u }) ino j n)
unfolding free_blocks free_block
free_blocks-Freed zero {bm} u j l h = (
  record bm { using_blocks = u },
  refl,
  record {
    disk_same = refl;
    sb_same = refl;
    freed = λ m p q. absurd (omega arith);
    others = λ b q. refl;
  },
)
free_blocks-Freed (suc n) {bm} {ino} u j l h =
    let id = nth bm.d.blocks ino j in
    let at : get_nth_blockid (record bm { using_blocks = u }) ino j ≡ some id =
      get_nth_blockid-with_using bm u ino j ∙ get_nth_blockid-Layout l j (omega arith) in
    let (r, e, f) = free_blocks-Freed n (update u id 0) (j + 1) l (omega arith) in
    let first : r.using_blocks id ≡ 0 =
      f.others id (λ m p q x. l.distinct j m (omega arith) (omega arith) (sym x))
      ∙ (ground arith) in
    (
      r,
      rw at e,
      record {
        disk_same = f.disk_same;
        sb_same = f.sb_same;
        freed = λ m p q. elim (Bool-cases (j == m)) [
          | inl z ↦ subst (λ i. r.using_blocks (nth bm.d.blocks ino i) ≡ 0) (ground arith) first
          | inr z ↦ f.freed m (ground arith) (omega arith)
        ];
        others =
            λ b q. f.others b (λ m p p'. q m (omega arith) (omega arith)) ∙ (ground (arith, q j));
      },
    )

-- What is left of a file that was removed.
pub record Removed (bm : BlockManager) (inum : ℕ) (ino : Inode) (r : BlockManager) : Type 0 where
  pub inode_free : slot r inum ≡ cleared ino 0
  pub blocks_free : (m : ℕ) → m < blocks_for ino.size → r.using_blocks (nth bm.d.blocks ino m) ≡ 0
  pub indirect_free : ndirect < blocks_for ino.size → r.using_blocks (indirect ino) ≡ 0
  pub indirect_kept :
      indirect ino ≢ 0
      → blocks_for ino.size ≤ ndirect
      → r.using_blocks (indirect ino) ≡ bm.using_blocks (indirect ino)
  pub others_used :
      (b : ℕ)
      → ((m : ℕ) → m < blocks_for ino.size → nth bm.d.blocks ino m ≢ b)
      → indirect ino ≢ b
      → r.using_blocks b ≡ bm.using_blocks b
  pub others_same : (b : ℕ) → b ≢ inum + 11 → r.d.blocks b ≡ bm.d.blocks b

-- The block of addresses is freed if the size says that there is one.
abbrev free_last : BlockManager → Inode → BlockManager
free_last bm ino =
    if ltb ndirect (blocks_for ino.size) then free_block bm (get_or ino.blocks ndirect 0) else bm

record Last (bm : BlockManager) (ino : Inode) (r : BlockManager) : Type 0 where
  same : r.d ≡ bm.d
  same_sb : r.sb ≡ bm.sb
  still_free : (b : ℕ) → bm.using_blocks b ≡ 0 → r.using_blocks b ≡ 0
  freed : ndirect < blocks_for ino.size → r.using_blocks (indirect ino) ≡ 0
  kept : blocks_for ino.size ≤ ndirect → (b : ℕ) → r.using_blocks b ≡ bm.using_blocks b
  others : (b : ℕ) → indirect ino ≢ b → r.using_blocks b ≡ bm.using_blocks b

free_last-Last : (bm : BlockManager) (ino : Inode) → Last bm ino (free_last bm ino)
unfolding free_block
free_last-Last bm ino = record {
  same = ground arith;
  same_sb = ground arith;
  still_free = λ b h. ground arith;
  freed = λ h. ground arith;
  kept = λ h b. ground arith;
  others = λ b h. ground arith;
}

remove_inode-Removed :
    {bm : BlockManager} (inum : ℕ) {ino : Inode}
    → FileAt bm inum ino
    → ino.type ≢ 0
    → Gives (Removed bm inum ino) (remove_inode bm inum ino)
unfolding remove_inode
remove_inode-Removed {bm} inum {ino} v u =
    let l = v.layout in
    let small = get_inode-found bm inum v.found in
    let old : slot bm inum ≡ ino =
      cc (get_slot bm inum (record { formatted = l.formatted; disk = l.disk }) small, v.found) in
    let (bm1, e, f) = free_blocks-Freed (blocks_for ino.size) bm.using_blocks 0 l (omega arith) in
    let bm2 = free_last bm1 ino in
    let g = free_last-Last bm1 ino in
    let same : bm2.d ≡ bm.d = g.same ∙ f.disk_same in
    let sb : bm2.sb ≡ bm.sb = g.same_sb ∙ f.sb_same in
    let valid : IsFormatted bm2 = record {
      formatted = sb ∙ l.formatted;
      disk = subst (λ d. IsDisk d.blocks) (sym same) l.disk;
    } in
    let here : slot bm2 inum ≡ ino = ap (λ d. decode (d.blocks (inum + 11))) same ∙ old in
    let (r, e', w) =
      free_inode_lem bm2 inum valid small (λ x. u (ap (λ i. i.type) (sym here) ∙ x)) in
    let at : (b : ℕ) → r.using_blocks b ≡ bm2.using_blocks b = λ b. ap (λ k. k b) w.using_same in
    (
      r,
      rw e e',
      record {
        inode_free = w.here ∙ ap (λ i. cleared i 0) here;
        blocks_free = λ m h. at _ ∙ g.still_free _ (f.freed m (omega arith) (omega arith));
        indirect_free = λ h. at _ ∙ g.freed h;
        indirect_kept = λ z h.
            at _
            ∙ g.kept h _
            ∙ f.others (indirect ino) (λ m p q. l.indirect_apart z m (omega arith));
        others_used = λ b q z. at _ ∙ g.others b z ∙ f.others b (λ m p q'. q m (omega arith));
        others_same = λ b q. w.others b q ∙ ap (λ d. d.blocks b) same;
      },
    )

-- `remove_file` of a file whose blocks are laid out: the inode is free, with its block addresses
-- still in it; every block of the file is free; the block of addresses is free exactly when the size
-- needed one; no other block of the disk changes and no other is freed or taken.
pub remove_file_lem :
    {bm : BlockManager} (inum : ℕ) {ino : Inode}
    → FileAt bm inum ino
    → ino.type ≢ 0
    → (r : BlockManager) × (remove_file bm inum ≡ some r) × Removed bm inum ino r
unfolding remove_file
remove_file_lem inum v u = let (r, e, w) = remove_inode-Removed inum v u in (r, rw v.found e, w)
