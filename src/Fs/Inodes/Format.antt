-- ===== src/Fs/Inodes/Format.antt =====
-- The file system that the constructors make.
use cse_labs.Prelude.{
  ℕ, ◌+◌, ◌-◌, ◌<◌, ◌≤◌, ◌≡◌, refl, sym, ap, subst, ◌∙◌, some, arith, Bytes, [], ◌∷◌, length, inl,
  replicate, length-replicate, All-replicate,
}
use cse_labs.Fs.Words.{word_at, words_from, set_words, length-set_words}
use cse_labs.Fs.Inode.{Inode, IsInode, AreBytes, decode, set_words-AreBytes}
use cse_labs.Fs.Disk.{
  BlockManager, block_num, update, new_disk, new_block_manager, initial_sb, fileblock,
}
use cse_labs.Fs.Disk.Alloc.{free_count, free_from, free_from-all}
use cse_labs.Fs.Manager.{blocks_for}
use cse_labs.Fs.Manager.Layout.{IsDisk, Layout, indirect, update-IsDisk, write_block-blocks}
use cse_labs.Fs.Manager.Content.{FileAt}
use cse_labs.Fs.Inodes.{cleared, new_inode_manager, t_dir}
use cse_labs.Fs.Inodes.Table.{IsFormatted, slot, PutInode}
use cse_labs.Fs.Inodes.Alloc.{alloc_inode_first, slot-IsInode, get_slot}

zeros-IsDisk : IsDisk new_disk.blocks
zeros-IsDisk = record {
  sized = λ b. length-replicate {A = ℕ} 512 0;
  bytes = λ b. All-replicate (λ b. b < 256) 512 0 (omega arith);
}

abbrev sb_block : Bytes → Bytes
sb_block memory =
    set_words memory 0 (initial_sb.size ∷ initial_sb.nblocks ∷ initial_sb.ninodes ∷ [])

-- What stands in the memory of a block.
abbrev pub IsBlock : Bytes → Type 0
IsBlock memory = (length memory ≡ 512) × AreBytes memory

sb_block-fits : (memory : Bytes) → IsBlock memory → IsBlock (sb_block memory)
sb_block-fits memory m = (length-set_words memory 0 _ ∙ m.0, set_words-AreBytes memory 0 _ m.1)

new_block_manager-blocks :
    (memory : Bytes)
    → IsBlock memory
    → (new_block_manager memory).d.blocks ≡ update new_disk.blocks 1 (sb_block memory)
unfolding new_block_manager
new_block_manager-blocks memory m =
    write_block-blocks new_disk 1 (sb_block memory) (omega arith) (sb_block-fits memory m).0

pub new_block_manager-IsFormatted :
    (memory : Bytes) → IsBlock memory → IsFormatted (new_block_manager memory)
unfolding new_block_manager
new_block_manager-IsFormatted memory m = record {
  formatted = refl;
  disk = rw (new_block_manager-blocks memory m) (
      update-IsDisk new_disk.blocks 1 (sb_block memory) zeros-IsDisk (sb_block-fits memory m).0
        (sb_block-fits memory m).1);
}

new_block_manager-free :
    (memory : Bytes) (j : ℕ) → 1035 ≤ j → (new_block_manager memory).using_blocks j ≡ 0
unfolding new_block_manager
new_block_manager-free memory j h = ground arith

pub slot_one :
    (memory : Bytes) → IsBlock memory → slot (new_block_manager memory) 1 ≡ decode (replicate 512 0)
slot_one memory m = ap (λ b. decode (b 12)) (new_block_manager-blocks memory m)

pub zero_inode : (decode (replicate 512 0)).type ≡ 0
unfolding decode word_at
zero_inode = refl

pub zero_indirect : indirect (decode (replicate 512 0)) ≡ 0
unfolding decode words_from word_at
zero_indirect = refl

-- A file with no blocks, and no block of addresses.
pub Layout-empty :
    {bm : BlockManager} {ino : Inode}
    → IsFormatted bm
    → IsInode ino
    → indirect ino ≡ 0
    → Layout bm ino 0
Layout-empty v w z = record {
  formatted = v.formatted;
  disk = v.disk;
  full = w.full;
  fit = w.blocks_fit;
  short = omega arith;
  in_data = λ n h. absurd (omega arith);
  in_use = λ n h. absurd (omega arith);
  distinct = λ m n p q. absurd (omega arith);
  indirect_low = inl z;
  indirect_high = omega arith;
  indirect_use = λ x. absurd (x z);
  indirect_apart = λ x. absurd (x z);
  indirect_needed = λ h. absurd (omega arith);
}

-- A file system with an empty root directory as inode 1, all other inodes zero, and every block for
-- data free.
pub record IsNew (bm : BlockManager) : Type 0 where
  pub valid : IsFormatted bm
  pub root : FileAt bm 1 (slot bm 1)
  pub root_type : (slot bm 1).type ≡ t_dir
  pub root_empty : (slot bm 1).size ≡ 0
  pub root_plain : indirect (slot bm 1) ≡ 0
  pub others : (i : ℕ) → 2 ≤ i → i < 1024 → slot bm i ≡ decode (replicate 512 0)
  pub all_free : free_count bm ≡ 31733

new_inode_manager-made :
    (memory : Bytes)
    → IsBlock memory
    → (bm : BlockManager) × (new_inode_manager memory ≡ some bm)
      × PutInode (new_block_manager memory) 1 (cleared (decode (replicate 512 0)) t_dir) bm
unfolding new_inode_manager
new_inode_manager-made memory m =
    let (bm, e, w) =
      alloc_inode_first (new_block_manager memory) t_dir 1 (new_block_manager-IsFormatted memory m)
        (omega arith) (omega arith) (omega arith)
        (ap (λ i. i.type) (slot_one memory m) ∙ zero_inode) (λ n p q. absurd (omega arith)) in
    (
      bm,
      rw e refl,
      subst (λ i. PutInode (new_block_manager memory) 1 (cleared i t_dir) bm) (slot_one memory m) w,
    )

-- Whatever 512 bytes stand in the memory at the superblock before it is set, the constructors of the
-- disk, the block manager and the inode manager make a new file system: the root directory is inode 1 and empty, every other inode is zero and so free, and all
-- 31733 blocks for data are free.
pub new_inode_manager-IsNew :
    (memory : Bytes)
    → (length memory ≡ 512) × AreBytes memory
    → (bm : BlockManager) × (new_inode_manager memory ≡ some bm) × IsNew bm
new_inode_manager-IsNew memory m =
    let (bm, e, w) = new_inode_manager-made memory m in
    let plain : indirect (slot bm 1) ≡ 0 = ap (λ i. indirect i) w.here ∙ zero_indirect in
    let size : (slot bm 1).size ≡ 0 = ap (λ i. i.size) w.here in
    let empty : blocks_for (slot bm 1).size ≡ 0 =
      ap blocks_for size ∙ (unfold blocks_for in refl) in
    let free : (j : ℕ) → 1035 ≤ j → bm.using_blocks j ≡ 0 =
      λ j h. ap (λ k. k j) w.using_same ∙ new_block_manager-free memory j h in
    (
      bm,
      e,
      record {
        valid = w.valid;
        root = record {
          found = get_slot bm 1 w.valid (omega arith);
          layout =
              subst (λ k. Layout bm (slot bm 1) k) (sym empty)
                (Layout-empty w.valid (slot-IsInode bm 1 w.valid) plain);
          type_fits = (slot-IsInode bm 1 w.valid).type_fits;
        };
        root_type = ap (λ i. i.type) w.here;
        root_empty = size;
        root_plain = plain;
        others = λ i h h'. ap decode (
            w.others (i + 11) (λ q. omega (arith, h, q))
            ∙ ap (λ b. b (i + 11)) (new_block_manager-blocks memory m)
            ∙ (ground (arith, h)));
        all_free =
            ap (λ s. free_from bm.using_blocks (fileblock s) (block_num - fileblock s))
              w.valid.formatted
            ∙ free_from-all bm.using_blocks 1035 31733 (λ j p q. free j p);
      },
    )
