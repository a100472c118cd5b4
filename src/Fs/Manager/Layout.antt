-- ===== src/Fs/Manager/Layout.antt =====
-- The blocks of one file on the disk: where they lie, and that no two of them are the same.
use cse_labs.Prelude.{
  ℕ, ◌+◌, ◌-◌, ◌^◌, ◌<◌, ◌≤◌, ◌≡◌, ◌≢◌, ◌⊎◌, inl, inr, some, arith, ◌==◌, ltb, if◌then◌else◌, Bytes,
  length, get_or, All, Bool-cases, lt→ltb, take_all,
}
use cse_labs.Fs.Words.{word_at}
use cse_labs.Fs.Inode.{Inode, AreBytes}
use cse_labs.Fs.Disk.{
  BlockManager, Disk, initial_sb, block_num, block_size, ndirect, maxfile, get_block, read_block,
  write_block, update,
}
use cse_labs.Fs.Manager.{get_nth_blockid}

-- A block for the data of files.
abbrev InData : ℕ → Type 0
InData b = (1035 ≤ b) × (b < 32768)

-- The address of the block that holds further addresses, or 0.
abbrev pub indirect : Inode → ℕ
indirect ino = get_or ino.blocks ndirect 0

-- The address of the `n`-th block of a file.
unfoldable pub nth : (ℕ → Bytes) → Inode → ℕ → ℕ
nth blocks ino n =
    if ltb n ndirect then get_or ino.blocks n 0 else word_at (blocks (indirect ino)) (n - ndirect)

-- Every block of the disk has its size.
pub record IsDisk (blocks : ℕ → Bytes) : Type 0 where
  pub sized : (b : ℕ) → length (blocks b) ≡ 512
  pub bytes : (b : ℕ) → AreBytes (blocks b)

-- The first `k` blocks of a file: allocated, distinct, and apart from the block of addresses.
pub record Layout (bm : BlockManager) (ino : Inode) (k : ℕ) : Type 0 where
  pub formatted : bm.sb ≡ initial_sb
  pub disk : IsDisk bm.d.blocks
  pub full : length ino.blocks ≡ ndirect + 1
  pub fit : All (λ b. b < 2 ^ 32) ino.blocks
  pub short : k ≤ maxfile
  pub in_data : (n : ℕ) → n < k → InData (nth bm.d.blocks ino n)
  pub in_use : (n : ℕ) → n < k → bm.using_blocks (nth bm.d.blocks ino n) ≢ 0
  pub distinct : (m n : ℕ) → m < n → n < k → nth bm.d.blocks ino m ≢ nth bm.d.blocks ino n
  pub indirect_low : (indirect ino ≡ 0) ⊎ (1035 ≤ indirect ino)
  pub indirect_high : indirect ino < 32768
  pub indirect_use : indirect ino ≢ 0 → bm.using_blocks (indirect ino) ≢ 0
  pub indirect_apart : indirect ino ≢ 0 → (n : ℕ) → n < k → nth bm.d.blocks ino n ≢ indirect ino
  pub indirect_needed : ndirect < k → indirect ino ≢ 0

-- Every block of the file has its address.
pub get_nth_blockid-Layout :
    {bm : BlockManager} {ino : Inode} {k : ℕ}
    → Layout bm ino k
    → (n : ℕ) → n < k
    → get_nth_blockid bm ino n ≡ some (nth bm.d.blocks ino n)
unfolding get_nth_blockid nth get_block read_block
get_nth_blockid-Layout {bm} {ino} {k} l n h =
    ground (arith, l.short, l.indirect_high, l.indirect_needed)

-- Writing a whole block.
pub write_block-blocks :
    (d : Disk) (id : ℕ) (buf : Bytes)
    → id < 32768
    → length buf ≡ 512
    → (write_block d id buf).blocks ≡ update d.blocks id buf
unfolding write_block
write_block-blocks d id buf h l =
    rw (lt→ltb id block_num h, take_all block_size buf (omega (arith, l)))

pub update-IsDisk :
    (blocks : ℕ → Bytes) (id : ℕ) (buf : Bytes)
    → IsDisk blocks
    → length buf ≡ 512
    → AreBytes buf
    → IsDisk (update blocks id buf)
update-IsDisk blocks id buf v l h = record {
  sized = λ b. ground (arith, v.sized b);
  bytes = λ b. elim (Bool-cases (id == b)) [ inl e ↦ rw e h | inr e ↦ rw e (v.bytes b) ];
}
