-- ===== src/Fs/Disk.antt =====
-- The disk and block layers. `disk::blocks` is a function from block numbers to blocks; the bytes of
-- a buffer that nobody has written are not modelled, and reading them is a fault, `none`.
pub mod Alloc
use cse_labs.Prelude.{
  ℕ, zero, suc, ◌+◌, ◌-◌, ◌*◌, ◌/◌, Bool, Option, none, some, arith, ◌==◌, ltb, if◌then◌else◌,
  Bytes, take, replicate, List, [], ◌∷◌,
}
use cse_labs.Fs.Words.{set_words}

abbrev pub block_size : ℕ
block_size = 512

abbrev disk_size : ℕ
disk_size = 1024 * 1024 * 16

abbrev pub block_num : ℕ
block_num = disk_size / block_size

abbrev pub inode_num : ℕ
inode_num = 1024

-- Inodes per block, and bits per block.
abbrev pub ipb : ℕ
ipb = 1

abbrev bpb : ℕ
bpb = block_size * 8

-- `IBLOCK(i, nblocks)`, the block of an inode.
abbrev pub iblock : ℕ → ℕ → ℕ
iblock i nblocks = nblocks / bpb + i / ipb + 3

abbrev pub ndirect : ℕ
ndirect = 100

abbrev nindirect : ℕ
nindirect = block_size / 4

abbrev pub maxfile : ℕ
maxfile = ndirect + nindirect

pub record Disk : Type 0 where
  pub blocks : ℕ → Bytes

abbrev pub update {ℓ} : {A : Type ℓ} → (ℕ → A) → ℕ → A → ℕ → A
update f i a j = if i == j then a else f j

-- `disk::disk`
abbrev pub new_disk : Disk
new_disk = record { blocks = λ _. replicate block_size 0 }

-- The buffer after the call; a block that is not there leaves it as it was.
unfoldable pub read_block : Disk → ℕ → Bytes → Bytes
read_block d id buf = if ltb id block_num then d.blocks id else buf

-- `memcpy` of one block.
unfoldable pub write_block : Disk → ℕ → Bytes → Disk
write_block d id buf =
    if ltb id block_num then record { blocks = update d.blocks id (take block_size buf) } else d

pub record Superblock : Type 0 where
  pub size : ℕ
  pub nblocks : ℕ
  pub ninodes : ℕ

-- `using_blocks` is a map with the default 0.
pub record BlockManager : Type 0 where
  pub d : Disk
  pub using_blocks : ℕ → ℕ
  pub sb : Superblock

-- `FILEBLOCK`, the first block for the data of files.
abbrev pub fileblock : Superblock → ℕ
fileblock sb = iblock sb.ninodes sb.nblocks

abbrev pub initial_sb : Superblock
initial_sb = record { size = block_size * block_num; nblocks = block_num; ninodes = inode_num }

-- `block_manager::block_manager`: a block is written to block 1 from where the superblock stands, though
-- this has 12 bytes. `memory` is the 512 bytes there before its words are set; C++ does not define what
-- the last 500 are.
unfoldable pub new_block_manager : Bytes → BlockManager
unfolding write_block set_words
new_block_manager memory = record {
  d =
      write_block new_disk 1
        (set_words memory 0 (initial_sb.size ∷ initial_sb.nblocks ∷ initial_sb.ninodes ∷ []));
  using_blocks = λ i. if ltb i (fileblock initial_sb) then 1 else 0;
  sb = initial_sb;
}

-- The loop of `alloc_block` over `n` blocks from `i` on; 0 says that there is no free block.
unfoldable pub alloc_from : BlockManager → ℕ → ℕ → BlockManager × ℕ
alloc_from bm i zero = (bm, 0)
alloc_from bm i (suc n) =
    let rest = alloc_from bm (i + 1) n in
    if bm.using_blocks i == 0
    then (record bm { using_blocks = update bm.using_blocks i 1 }, i)
    else rest

unfoldable pub alloc_block : BlockManager → BlockManager × ℕ
unfolding alloc_from
alloc_block bm = alloc_from bm (fileblock bm.sb) (block_num - fileblock bm.sb)

unfoldable pub free_block : BlockManager → ℕ → BlockManager
free_block bm id = record bm { using_blocks = update bm.using_blocks id 0 }

abbrev pub put_block : BlockManager → ℕ → Bytes → BlockManager
put_block bm id buf = record bm { d = write_block bm.d id buf }

-- A read into a buffer that holds nothing yet.
unfoldable pub get_block : BlockManager → ℕ → Option Bytes
unfolding read_block
get_block bm id = if ltb id block_num then some (read_block bm.d id []) else none
