-- ===== src/Fs/Inodes/Tests.antt =====
-- The new file system, a file of a few bytes on it, and a table with no free inode.
use cse_labs.Prelude.{
  ℕ, ◌<◌, ◌≡◌, refl, ap, sym, subst, inl, inr, ◌∙◌, ◌≢◌, none, some, [], ◌∷◌, arith, Bytes, length,
  replicate, length-replicate, All-replicate,
}
use cse_labs.Fs.Words.{word_at}
use cse_labs.Fs.Inode.{Inode, decode}
use cse_labs.Fs.Disk.{BlockManager, initial_sb, new_block_manager}
use cse_labs.Fs.Manager.{Times, write_file, read_file, blocks_for}
use cse_labs.Fs.Manager.Content.{FileAt, HasRoom}
use cse_labs.Fs.Manager.Layout.{Layout, indirect}
use cse_labs.Fs.Manager.Others.{Disjoint}
use cse_labs.Fs.Manager.Isolation.{write_file-isolates}
use cse_labs.Fs.Manager.RoundTrip.{read_file-write_file}
use cse_labs.Fs.Inodes.{cleared, alloc_inode, remove_file, new_inode_manager, t_dir, t_file}
use cse_labs.Fs.Inodes.Table.{IsFormatted, slot, PutInode}
use cse_labs.Fs.Inodes.Alloc.{slot-IsInode, get_slot, alloc_inode_first, alloc_inode_full}
use cse_labs.Fs.Inodes.Remove.{Removed, remove_file_lem}
use cse_labs.Fs.Inodes.Format.{
  IsBlock, IsNew, new_inode_manager-IsNew, new_block_manager-IsFormatted, slot_one, zero_inode,
  zero_indirect, Layout-empty,
}

zeros-IsBlock : IsBlock (replicate 512 0)
zeros-IsBlock = (length-replicate {A = ℕ} 512 0, All-replicate (λ b. b < 256) 512 0 (omega arith))

abbrev unformatted : BlockManager
unformatted = new_block_manager (replicate 512 0)

abbrev fresh : BlockManager
fresh = (new_inode_manager-IsNew (replicate 512 0) zeros-IsBlock).0

fresh-IsNew : IsNew fresh
fresh-IsNew = (new_inode_manager-IsNew (replicate 512 0) zeros-IsBlock).2

-- `a:2/`
abbrev entry : Bytes
entry = 97 ∷ 58 ∷ 50 ∷ 47 ∷ []

abbrev noon : Times
noon = record { atime = 7; mtime = 7; ctime = 7 }

fresh-HasRoom : HasRoom fresh (slot fresh 1) (length entry)
unfolding blocks_for
fresh-HasRoom h = omega (arith, fresh-IsNew.all_free, fresh-IsNew.root_empty)

read_file-write_file_example :
    (r : BlockManager) × (write_file fresh 1 entry (replicate 512 0) noon ≡ some r)
    × (read_file r 1 ≡ some (some entry))
    × ((ino' : Inode) × FileAt r 1 ino'
        × (ino'.size ≡ length entry)
        × (ino'.type ≡ (slot fresh 1).type))
read_file-write_file_example =
    read_file-write_file 1 entry (replicate 512 0) noon fresh-IsNew.root (omega arith) fresh-HasRoom
      (omega arith)
      (length-replicate {A = ℕ} 512 0, All-replicate (λ b. b < 256) 512 0 (omega arith))
      (omega arith, omega arith, omega arith)

-- Inode 2 is a file with no blocks.
second_zero : slot fresh 2 ≡ decode (replicate 512 0)
second_zero = fresh-IsNew.others 2 (omega arith) (omega arith)

second_plain : indirect (slot fresh 2) ≡ 0
second_plain = ap (λ i. indirect i) second_zero ∙ zero_indirect

second_empty : blocks_for (slot fresh 2).size ≡ 0
second_empty = ap (λ i. blocks_for i.size) second_zero ∙ (unfold blocks_for decode word_at in refl)

second_FileAt : FileAt fresh 2 (slot fresh 2)
second_FileAt = record {
  found = get_slot fresh 2 fresh-IsNew.valid (omega arith);
  layout =
      subst (λ k. Layout fresh (slot fresh 2) k) (sym second_empty)
        (Layout-empty fresh-IsNew.valid (slot-IsInode fresh 2 fresh-IsNew.valid) second_plain);
  type_fits = (slot-IsInode fresh 2 fresh-IsNew.valid).type_fits;
}

apart : Disjoint fresh (slot fresh 1) (slot fresh 2)
apart b p (inl (n, q, e)) = omega (arith, q, second_empty)
apart b p (inr (e, z)) = z (sym e ∙ second_plain)

write_file-isolates_example :
    (r : BlockManager) × (write_file fresh 1 entry (replicate 512 0) noon ≡ some r)
    × (read_file r 2 ≡ read_file fresh 2)
    × FileAt r 2 (slot fresh 2)
write_file-isolates_example =
    write_file-isolates 1 2 entry (replicate 512 0) noon fresh-IsNew.root second_FileAt
      (omega arith) apart (omega arith) fresh-HasRoom (omega arith)
      (length-replicate {A = ℕ} 512 0, All-replicate (λ b. b < 256) 512 0 (omega arith))
      (omega arith, omega arith, omega arith)

remove_file_lem_example :
    (r : BlockManager) × (remove_file fresh 1 ≡ some r) × Removed fresh 1 (slot fresh 1) r
remove_file_lem_example =
    remove_file_lem 1 fresh-IsNew.root (λ e. omega (arith, fresh-IsNew.root_type, e))

-- Every inode of this disk is in use.
abbrev crowded_block : Bytes
crowded_block = 1 ∷ replicate 511 0

abbrev crowded : BlockManager
crowded = record {
  d = record { blocks = λ _. crowded_block };
  using_blocks = λ _. 0;
  sb = initial_sb;
}

crowded-IsFormatted : IsFormatted crowded
crowded-IsFormatted = record {
  formatted = refl;
  disk = record {
    sized = λ b. refl;
    bytes = λ b. (omega arith, All-replicate (λ b. b < 256) 511 0 (omega arith));
  };
}

crowded_type : (decode crowded_block).type ≢ 0
unfolding decode word_at
crowded_type e = omega (arith, e)

alloc_inode_full_example : alloc_inode crowded t_file ≡ none
alloc_inode_full_example =
    alloc_inode_full crowded t_file crowded-IsFormatted (λ m p q. crowded_type)

alloc_inode_first_example :
    (r : BlockManager) × (alloc_inode unformatted t_dir ≡ some (r, 1))
    × PutInode unformatted 1 (cleared (slot unformatted 1) t_dir) r
alloc_inode_first_example =
    alloc_inode_first unformatted t_dir 1
      (new_block_manager-IsFormatted (replicate 512 0) zeros-IsBlock) (omega arith) (omega arith)
      (omega arith) (ap (λ i. i.type) (slot_one (replicate 512 0) zeros-IsBlock) ∙ zero_inode)
      (λ m p q. absurd (omega arith))

new_inode_manager-IsNew_example :
    (bm : BlockManager) × (new_inode_manager (replicate 512 0) ≡ some bm) × IsNew bm
new_inode_manager-IsNew_example = new_inode_manager-IsNew (replicate 512 0) zeros-IsBlock
