-- ===== src/Fs/Tests.antt =====
-- The allocator of a new disk, and an inode in a block.
use cse_labs.Prelude.{◌<◌, ◌^◌, ◌≡◌, refl, ◌∷◌, arith, replicate, All-replicate}
use cse_labs.Fs.Disk.{BlockManager, new_block_manager, alloc_block}
use cse_labs.Fs.Disk.Alloc.{Takes, free_count, alloc_block_lem}
use cse_labs.Fs.Inode.{Inode, decode, encode, decode-encode}

abbrev unformatted : BlockManager
unformatted = new_block_manager (replicate 512 0)

alloc_block_lem_example :
    (0 < free_count unformatted
      → Takes unformatted (alloc_block unformatted).0 (alloc_block unformatted).1)
    × (free_count unformatted ≡ 0 → alloc_block unformatted ≡ (unformatted, 0))
unfolding new_block_manager
alloc_block_lem_example = alloc_block_lem unformatted (omega arith)

-- A file of 700 bytes in two blocks.
abbrev small_file : Inode
small_file = record {
  type = 2;
  size = 700;
  atime = 1609585949;
  mtime = 1609585949;
  ctime = 1609599314;
  blocks = 1035 ∷ 1036 ∷ replicate 99 0;
}

decode-encode_example : decode (encode small_file (replicate 512 0)) ≡ small_file
decode-encode_example =
    decode-encode small_file (replicate 512 0)
      record {
        type_fits = omega arith;
        size_fits = omega arith;
        atime_fits = omega arith;
        mtime_fits = omega arith;
        ctime_fits = omega arith;
        blocks_fit =
            (omega arith, (omega arith, All-replicate (λ b. b < 2 ^ 32) 99 0 (omega arith)));
        full = refl;
      }
      (All-replicate (λ b. b < 256) 512 0 (omega arith)) refl
