-- ===== src/Extent/Tests.antt =====
-- A new file system with room in its root directory.
use cse_labs.Prelude.{
  ℕ, ◌-◌, ◌++◌, some, ◌≤◌, ◌≡◌, ◌==◌, sym, subst, ap, ◌∙◌, refl, inl, inr, Bool-cases, length, ◌<◌,
  [], ◌∷◌, arith, Bytes, replicate, length-replicate, All-replicate,
}
use cse_labs.Fs.Disk.{BlockManager}
use cse_labs.Fs.Manager.{blocks_for}
use cse_labs.Fs.Manager.Content.{HasRoom}
use cse_labs.Fs.Words.{word_at}
use cse_labs.Fs.Inode.{AreBytes, decode}
use cse_labs.Fs.Manager.Layout.{Layout, indirect}
use cse_labs.Fs.Manager.Content.{FileAt}
use cse_labs.Fs.Inodes.Alloc.{slot-IsInode, get_slot}
use cse_labs.Fs.Inodes.Format.{zero_indirect, Layout-empty}
use cse_labs.Fs.Inodes.Table.{slot}
use cse_labs.Fs.Disk.{block_num, fileblock, initial_sb}
use cse_labs.Fs.Disk.Alloc.{free_count, free_from}
use cse_labs.Fs.Manager.{read_file, read_inode, read_blocks, read_rest}
use cse_labs.Fs.Inodes.{alloc_inode, cleared}
use cse_labs.Fs.Inodes.Table.{IsFormatted, PutInode}
use cse_labs.Fs.Inodes.Alloc.{alloc_inode_first}
use cse_labs.Fs.Inodes.Format.{zero_inode}
use cse_labs.Yfs.Dirs.{dir_entry}
use cse_labs.Extent.Client.Creation.{CanEnter}
use cse_labs.Extent.Client.Content.{CanWrite}
use cse_labs.Fs.Inodes.Format.{IsBlock, IsNew, new_inode_manager-IsNew}
use cse_labs.Extent.{Stack}
use cse_labs.Extent.Cache.{IsStack}

pub zeros-IsBlock : IsBlock (replicate 512 0)
zeros-IsBlock = (length-replicate {A = ℕ} 512 0, All-replicate (λ b. b < 256) 512 0 (omega arith))

abbrev pub disk : BlockManager
disk = (new_inode_manager-IsNew (replicate 512 0) zeros-IsBlock).0

pub disk-IsNew : IsNew disk
disk-IsNew = (new_inode_manager-IsNew (replicate 512 0) zeros-IsBlock).2

abbrev pub alice : Bytes
alice = 97 ∷ []

abbrev pub stack : Stack
stack = record { temp = replicate 512 0; times = record { atime = 7; mtime = 7; ctime = 7 } }

pub stack-IsStack : IsStack stack
stack-IsStack = record {
  temp_length = length-replicate {A = ℕ} 512 0;
  temp_bytes = All-replicate (λ b. b < 256) 512 0 (omega arith);
  times = (omega arith, omega arith, omega arith);
}

pub room : HasRoom disk (slot disk 1) 2
unfolding blocks_for
room h = omega (arith, disk-IsNew.all_free, disk-IsNew.root_empty)

-- Every inode of the new disk has no blocks.
slot_plain : (i : ℕ) → 1 ≤ i → i < 1024 → ((slot disk i).size ≡ 0) × (indirect (slot disk i) ≡ 0)
slot_plain i l h = elim (Bool-cases (i == 1)) [
  | inl p ↦
      let at : 1 ≡ i = ground (arith, p) in
      subst (λ k. ((slot disk k).size ≡ 0) × (indirect (slot disk k) ≡ 0)) at
        (disk-IsNew.root_empty, disk-IsNew.root_plain)
  | inr p ↦
      let zero = disk-IsNew.others i (ground (arith, l, p)) h in
      (ap (λ k. k.size) zero ∙ (unfold decode word_at in refl), ap indirect zero ∙ zero_indirect)
]

one_block : (n : ℕ) → n ≤ 512 → blocks_for n ≤ 1
unfolding blocks_for
one_block n h = ground arith

empty-FileAt :
    (bm : BlockManager) (i : ℕ)
    → IsFormatted bm
    → i < 1024
    → (slot bm i).size ≡ 0
    → indirect (slot bm i) ≡ 0
    → FileAt bm i (slot bm i) × (blocks_for (slot bm i).size ≡ 0)
unfolding blocks_for
empty-FileAt bm i v h empty plain =
    let no_blocks : blocks_for (slot bm i).size ≡ 0 = ap blocks_for empty ∙ refl in
    (
      record {
        found = get_slot bm i v h;
        layout =
            subst (λ k. Layout bm (slot bm i) k) (sym no_blocks)
              (Layout-empty v (slot-IsInode bm i v) plain);
        type_fits = (slot-IsInode bm i v).type_fits;
      },
      no_blocks,
    )

-- A content of at most one block finds room in an empty file.
empty-CanWrite :
    (bm : BlockManager) (i : ℕ) (b : Bytes)
    → IsFormatted bm
    → free_count bm ≡ 31733
    → i < 1024
    → (slot bm i).size ≡ 0
    → indirect (slot bm i) ≡ 0
    → length b ≤ 512
    → AreBytes b
    → CanWrite bm i b
empty-CanWrite bm i b v free h empty plain n bytes =
    let (at, no_blocks) = empty-FileAt bm i v h empty plain in
    record {
      ino = slot bm i;
      file = at;
      small = omega (arith, h);
      fits = omega (arith, n);
      room = λ h'. omega (arith, one_block (length b) n, free, no_blocks);
      bytes = bytes;
    }

pub slot-CanWrite :
    (i : ℕ) (b : Bytes) → 1 ≤ i → i < 1024 → length b ≤ 512 → AreBytes b → CanWrite disk i b
slot-CanWrite i b l h n bytes =
    let (empty, plain) = slot_plain i l h in
    empty-CanWrite disk i b disk-IsNew.valid disk-IsNew.all_free h empty plain n bytes

-- A file is made on the new disk: it is inode 2.
second_zero : slot disk 2 ≡ decode (replicate 512 0)
second_zero = disk-IsNew.others 2 (omega arith) (omega arith)

taken :
    (r : BlockManager) × (alloc_inode disk 2 ≡ some (r, 2))
    × PutInode disk 2 (cleared (slot disk 2) 2) r
taken =
    alloc_inode_first disk 2 2 disk-IsNew.valid (omega arith) (omega arith) (omega arith)
      (ap (λ k. k.type) second_zero ∙ zero_inode)
      (λ m p q e.
        let one : 1 ≡ m = omega (arith, p, q) in
        omega (arith, disk-IsNew.root_type, subst (λ k. (slot disk k).type ≡ 0) (sym one) e))

-- An empty file is apart from every other one, and reads as empty.
empty_read :
    (bm : BlockManager) (i : ℕ)
    → IsFormatted bm
    → i < 1024
    → (slot bm i).size ≡ 0
    → read_file bm i ≡ some (some [])
unfolding read_file read_inode read_blocks read_rest
empty_read bm i v h empty = rw (get_slot bm i v h, empty) refl

counted :
    (bm : BlockManager)
    → IsFormatted bm
    → free_count bm
      ≡ free_from bm.using_blocks (fileblock initial_sb) (block_num - fileblock initial_sb)
counted bm v =
    ap (λ s. free_from bm.using_blocks (fileblock s) (block_num - fileblock s)) v.formatted

pub root-CanEnter :
    (name old : Bytes)
    → length (old ++ dir_entry name 2) ≤ 512
    → AreBytes (old ++ dir_entry name 2)
    → CanEnter disk 2 1 name old
root-CanEnter name old n bytes =
    let (r, e, w) = taken in
    let root : slot r 1 ≡ slot disk 1 = ap decode (w.others 12 (λ q. omega (arith, q))) in
    let plain : indirect (slot r 2) ≡ 0 =
      ap indirect w.here ∙ ap indirect second_zero ∙ zero_indirect in
    let size : (slot r 2).size ≡ 0 = ap (λ k. k.size) w.here in
    let free : free_count r ≡ 31733 =
      (λ k.
        free_from (w.using_same k) (fileblock (w.valid.formatted k))
          (block_num - fileblock (w.valid.formatted k)))
      ∙ sym (counted disk disk-IsNew.valid)
      ∙ disk-IsNew.all_free in
    let (at, no_blocks) = empty-FileAt r 2 w.valid (omega arith) size plain in
    record {
      made = r;
      id = 2;
      allocated = e;
      directory =
          empty-CanWrite r 1 (old ++ dir_entry name 2) w.valid free (omega arith)
            (ap (λ k. k.size) root ∙ disk-IsNew.root_empty)
            (ap indirect root ∙ disk-IsNew.root_plain) n bytes;
      ino = slot r 2;
      file = at;
      text = [];
      readable = empty_read r 2 w.valid (omega arith) size;
      other = λ q. omega (arith, q);
      apart = λ b p q. elim q [
        | inl (m, q', e') ↦ omega (arith, q', no_blocks)
        | inr (e', z) ↦ z (sym e' ∙ plain)
      ];
    }
