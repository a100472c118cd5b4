-- ===== src/Fs/Inodes.antt =====
-- The inodes of the inode layer: `alloc_inode`, `free_inode`, `remove_file`, `getattr` and the
-- constructor, over the operations on files; and the types and attributes of extent_protocol.h.
pub mod Table
pub mod Alloc
pub mod Remove
pub mod Format
mod Tests
use cse_labs.Prelude.{
  ℕ, zero, suc, ◌+◌, ◌-◌, ◌*◌, ◌^◌, ◌%◌, Option, none, some, ◌==◌, ltb, not, if◌then◌else◌, ◌>>=◌,
  Bytes, check, get_or,
}
use cse_labs.Fs.Inode.{Inode}
use cse_labs.Fs.Disk.{BlockManager, ndirect, inode_num, free_block, new_block_manager}
use cse_labs.Fs.Manager.{get_inode, put_inode, get_nth_blockid, blocks_for, free_blocks}

-- `extent_protocol::types`
abbrev pub t_dir : ℕ
t_dir = 1

abbrev pub t_file : ℕ
t_file = 2

abbrev pub t_symlink : ℕ
t_symlink = 3

-- `extent_protocol::attr`
pub record Attr : Type 0 where
  pub type : ℕ
  pub atime : ℕ
  pub mtime : ℕ
  pub ctime : ℕ
  pub size : ℕ

-- A `short` as a `uint32_t`: the sign is extended.
unfoldable short_to_u32 : ℕ → ℕ
short_to_u32 t = if ltb t 0x8000 then t else t + 0xffff0000

unfoldable pub attr_of : Inode → Attr
unfolding short_to_u32
attr_of ino = record {
  type = short_to_u32 ino.type;
  atime = ino.atime;
  mtime = ino.mtime;
  ctime = ino.ctime;
  size = ino.size;
}

-- `getattr` into the attributes that the caller has.
unfoldable pub getattr : BlockManager → ℕ → Attr → Option Attr
getattr bm inum a = do
  found ← get_inode bm inum
  elim found [ none ↦ some a | some ino ↦ some (attr_of ino) ]

abbrev pub cleared : Inode → ℕ → Inode
cleared ino type = record ino { type = type; size = 0; atime = 0; mtime = 0; ctime = 0 }

-- One round of the loop of `alloc_inode`, at a pointer that may be null.
unfoldable try_inode :
    BlockManager → ℕ → ℕ → Option Inode → Option (BlockManager × ℕ) → Option (BlockManager × ℕ)
try_inode bm type i none rest = none
try_inode bm type i (some ino) rest =
    if ino.type == 0
    then put_inode bm i (cleared ino (type % 2 ^ 16)) >>= (λ bm'. some (bm', i))
    else rest

-- The loop over `n` inodes from `i` on.
unfoldable pub alloc_inode_from : BlockManager → ℕ → ℕ → ℕ → Option (BlockManager × ℕ)
unfolding try_inode
alloc_inode_from bm type i zero = some (bm, 1)
alloc_inode_from bm type i (suc n) =
    let rest = alloc_inode_from bm type (i + 1) n in
    get_inode bm i >>= λ tnode. try_inode bm type i tnode rest

unfoldable pub alloc_inode : BlockManager → ℕ → Option (BlockManager × ℕ)
alloc_inode bm type = alloc_inode_from bm type 1 inode_num

unfoldable pub free_inode : BlockManager → ℕ → Option BlockManager
free_inode bm inum = do
  found ← get_inode bm inum
  elim found [
    | none ↦ some bm
    | some ino ↦ check (not (ino.type == 0)) (put_inode bm inum (cleared ino 0))
  ]

-- The part of `remove_file` behind the assertion that there is an inode.
unfoldable pub remove_inode : BlockManager → ℕ → Inode → Option BlockManager
remove_inode bm inum ino = do
  bm1 ← free_blocks bm ino 0 (blocks_for ino.size)
  free_inode
      (if ltb ndirect (blocks_for ino.size)
        then free_block bm1 (get_or ino.blocks ndirect 0)
        else bm1)
      inum

unfoldable pub remove_file : BlockManager → ℕ → Option BlockManager
remove_file bm inum = do
  found ← get_inode bm inum
  elim found [ none ↦ none | some ino ↦ remove_inode bm inum ino ]

-- `inode_manager::inode_manager`: the root directory is inode 1, or the program ends.
unfoldable pub new_inode_manager : Bytes → Option BlockManager
new_inode_manager memory = do
  (bm, root_dir) ← alloc_inode (new_block_manager memory) t_dir
  check (root_dir == 1) (some bm)
