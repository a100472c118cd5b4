-- ===== src/Fs/Manager.antt =====
-- The inode layer. A failed `assert`, `exit(0)`, the use of a null pointer and the use of memory
-- that nobody has written are faults, `none`. The time is an argument.
pub mod Layout
pub mod Extend
pub mod Grow
pub mod Data
pub mod Content
pub mod RoundTrip
mod Guard
pub mod Others
pub mod Isolation
use cse_labs.Prelude.{
  ℕ, zero, suc, ◌+◌, ◌-◌, ◌*◌, ◌/◌, ◌%◌, Bool, true, false, not, Option, none, some, List, [], ◌∷◌,
  ◌++◌, arith, ◌==◌, ltb, leb, if◌then◌else◌, Bytes, length, get_or, set, take, drop, replicate,
  ◌>>=◌, check,
}
use cse_labs.Fs.Words.{word_at, set_word}
use cse_labs.Fs.Inode.{Inode, encode, decode}
use cse_labs.Fs.Disk.{
  BlockManager, block_size, iblock, ipb, inode_num, ndirect, maxfile, get_block, put_block,
  alloc_block, free_block, new_block_manager, write_block, read_block,
}

-- `get_inode`; the inner `none` is the null pointer. One inode stands in each block (`IPB` is 1),
-- so the inode starts at the buffer's first byte.
unfoldable pub get_inode : BlockManager → ℕ → Option (Option Inode)
get_inode bm inum =
    if leb inode_num inum
    then some none
    else do buf ← get_block bm (iblock inum bm.sb.nblocks); some (some (decode buf))

unfoldable pub put_inode : BlockManager → ℕ → Inode → Option BlockManager
put_inode bm inum ino = do
  buf ← get_block bm (iblock inum bm.sb.nblocks)
  some (put_block bm (iblock inum bm.sb.nblocks) (encode ino buf))

unfoldable pub get_nth_blockid : BlockManager → Inode → ℕ → Option ℕ
get_nth_blockid bm ino n =
    if ltb n ndirect
    then some (get_or ino.blocks n 0)
    else if ltb n maxfile
    then check (not (get_or ino.blocks ndirect 0 == 0))
        (get_block bm (get_or ino.blocks ndirect 0) >>= λ buf. some (word_at buf (n - ndirect)))
    else none

-- The block of addresses is allocated when the first address is stored in it.
unfoldable pub need_indirect : BlockManager → Inode → BlockManager × Inode
need_indirect bm ino =
    if get_or ino.blocks ndirect 0 == 0
    then (let (bm', b) = alloc_block bm in (bm', record ino { blocks = set ino.blocks ndirect b }))
    else (bm, ino)

unfoldable pub set_indirect : BlockManager → Inode → ℕ → Option (BlockManager × Inode)
set_indirect bm ino k = do
  buf ← get_block bm (get_or ino.blocks ndirect 0)
  let (bm', b) = alloc_block bm
  some (put_block bm' (get_or ino.blocks ndirect 0) (set_word buf k b), ino)

unfoldable pub alloc_nth_block : BlockManager → Inode → ℕ → Option (BlockManager × Inode)
unfolding need_indirect set_indirect
alloc_nth_block bm ino n =
    if ltb n ndirect
    then (let (bm', b) = alloc_block bm in some (bm', record ino { blocks = set ino.blocks n b }))
    else if ltb n maxfile
    then (let (bm', ino') = need_indirect bm ino in set_indirect bm' ino' (n - ndirect))
    else none

-- Blocks that hold `size` bytes.
unfoldable pub blocks_for : ℕ → ℕ
blocks_for size = if size == 0 then 0 else (size - 1) / block_size + 1

-- `for (j = ...) alloc_nth_block(ino, j)`, `n` rounds from `j` on.
unfoldable pub alloc_blocks : BlockManager → Inode → ℕ → ℕ → Option (BlockManager × Inode)
alloc_blocks bm ino j zero = some (bm, ino)
alloc_blocks bm ino j (suc n) = do
  (bm', ino') ← alloc_nth_block bm ino j
  alloc_blocks bm' ino' (j + 1) n

-- `for (j = ...) free_block(get_nth_blockid(ino, j))`
unfoldable pub free_blocks : BlockManager → Inode → ℕ → ℕ → Option BlockManager
free_blocks bm ino j zero = some bm
free_blocks bm ino j (suc n) = do
  id ← get_nth_blockid bm ino j
  free_blocks (free_block bm id) ino (j + 1) n

-- The two branches of `write_file` that change the number of blocks.
unfoldable pub resize : BlockManager → Inode → ℕ → ℕ → Option (BlockManager × Inode)
resize bm ino old new =
    if ltb old new
    then alloc_blocks bm ino old (new - old)
    else do bm' ← free_blocks bm ino new (old - new); some (bm', ino)

-- The loop over the full blocks, which leaves the bytes that are not written yet.
unfoldable pub write_blocks : BlockManager → Inode → ℕ → ℕ → Bytes → Option BlockManager
write_blocks bm ino i zero buf = some bm
write_blocks bm ino i (suc n) buf = do
  id ← get_nth_blockid bm ino i
  write_blocks (put_block bm id (take block_size buf)) ino (i + 1) n (drop block_size buf)

-- The last block, if it is not full; `temp` is what the buffer on the stack held before.
unfoldable pub write_rest : BlockManager → Inode → ℕ → Bytes → Bytes → Option BlockManager
write_rest bm ino i [] temp = some bm
write_rest bm ino i (x ∷ rest) temp = do
  id ← get_nth_blockid bm ino i
  some (put_block bm id ((x ∷ rest) ++ drop (length (x ∷ rest)) temp))

-- What the three calls of `time(NULL)` return.
pub record Times : Type 0 where
  pub atime : ℕ
  pub mtime : ℕ
  pub ctime : ℕ

-- The part of `write_file` behind the null test.
unfoldable pub write_inode : BlockManager → ℕ → Inode → Bytes → Bytes → Times → Option BlockManager
unfolding blocks_for
write_inode bm inum ino buf temp t = do
  (bm1, ino1) ← resize bm ino (blocks_for ino.size) (blocks_for (length buf))
  bm2 ← write_blocks bm1 ino1 0 (length buf / block_size) buf
  bm3 ←
      write_rest bm2 ino1 (length buf / block_size)
        (drop (length buf / block_size * block_size) buf) temp
  put_inode bm3 inum
      (record ino1 { size = length buf; atime = t.atime; mtime = t.mtime; ctime = t.ctime })

unfoldable pub write_file : BlockManager → ℕ → Bytes → Bytes → Times → Option BlockManager
write_file bm inum buf temp t = check (ltb (length buf) (maxfile * block_size)) do
  found ← get_inode bm inum
  elim found [ none ↦ some bm | some ino ↦ write_inode bm inum ino buf temp t ]

unfoldable pub read_blocks : BlockManager → Inode → ℕ → ℕ → Option Bytes
read_blocks bm ino i zero = some []
read_blocks bm ino i (suc n) = do
  id ← get_nth_blockid bm ino i
  buf ← get_block bm id
  rest ← read_blocks bm ino (i + 1) n
  some (buf ++ rest)

unfoldable pub read_rest : BlockManager → Inode → ℕ → ℕ → Option Bytes
read_rest bm ino i zero = some []
read_rest bm ino i (suc n) = do
  id ← get_nth_blockid bm ino i
  buf ← get_block bm id
  some (take (suc n) buf)

-- The part of `read_file` behind the null test.
unfoldable pub read_inode : BlockManager → Inode → Option Bytes
read_inode bm ino = check (leb ino.size (maxfile * block_size)) do
  front ← read_blocks bm ino 0 (ino.size / block_size)
  back ← read_rest bm ino (ino.size / block_size) (ino.size % block_size)
  some (front ++ back)

-- `read_file`; the inner `none` leaves the caller's buffer and size as they were.
unfoldable pub read_file : BlockManager → ℕ → Option (Option Bytes)
read_file bm inum = do
  found ← get_inode bm inum
  elim found [ none ↦ some none | some ino ↦ do content ← read_inode bm ino; some (some content) ]
