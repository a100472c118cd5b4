-- ===== src/Fs/Inodes/Table.antt =====
-- The inode table: an inode that is put is the one that is got, and every other stays.
use cse_labs.Prelude.{
  ℕ, ◌+◌, ◌<◌, ◌≡◌, refl, ap, ◌∙◌, ◌≢◌, none, some, arith, ltb, leb, if◌then◌else◌, length, lt→ltb,
  Bool-cases, inl, inr, true, false,
}
use cse_labs.Fs.Inode.{
  Inode, AreBytes, IsInode, encode, decode, decode-encode, length-encode, encode-AreBytes,
}
use cse_labs.Fs.Disk.{
  BlockManager, initial_sb, inode_num, iblock, block_num, get_block, put_block, read_block, update,
}
use cse_labs.Fs.Manager.{get_inode, put_inode}
use cse_labs.Fs.Manager.Layout.{IsDisk, write_block-blocks, update-IsDisk}
use cse_labs.Fs.Manager.Grow.{Gives}

-- A disk that the constructor has formatted.
pub record IsFormatted (bm : BlockManager) : Type 0 where
  pub formatted : bm.sb ≡ initial_sb
  pub disk : IsDisk bm.d.blocks

-- The inode in a slot of the table.
abbrev pub slot : BlockManager → ℕ → Inode
slot bm i = decode (bm.d.blocks (i + 11))

get_slot_block :
    (bm : BlockManager) (i : ℕ)
    → bm.sb ≡ initial_sb
    → i < 1024
    → get_block bm (iblock i bm.sb.nblocks) ≡ some (bm.d.blocks (i + 11))
unfolding get_block read_block
get_slot_block bm i f h =
    let at : iblock i bm.sb.nblocks ≡ i + 11 = ap (λ s. iblock i s.nblocks) f ∙ (omega arith) in
    rw (at, lt→ltb (i + 11) block_num (omega arith)) refl

-- Every number below 1024 names a slot, and no other number does.
pub get_inode_lem :
    (bm : BlockManager) (i : ℕ)
    → IsFormatted bm
    → get_inode bm i ≡ some (if ltb i 1024 then some (slot bm i) else none)
unfolding get_inode
get_inode_lem bm i v = elim (Bool-cases (ltb i 1024)) [
  | inl p ↦
      let q : leb inode_num i ≡ false = ground arith in
      rw (p, q, get_slot_block bm i v.formatted (ground arith)) refl
  | inr p ↦ let q : leb inode_num i ≡ true = ground arith in rw (p, q) refl
]

-- The disk after an inode was put.
pub record PutInode (bm : BlockManager) (i : ℕ) (ino : Inode) (r : BlockManager) : Type 0 where
  pub valid : IsFormatted r
  pub using_same : r.using_blocks ≡ bm.using_blocks
  pub here : slot r i ≡ ino
  pub others : (b : ℕ) → b ≢ i + 11 → r.d.blocks b ≡ bm.d.blocks b

pub put_inode-PutInode :
    (bm : BlockManager) (i : ℕ) (ino : Inode)
    → IsFormatted bm
    → IsInode ino
    → i < 1024
    → Gives (PutInode bm i ino) (put_inode bm i ino)
unfolding put_inode
put_inode-PutInode bm i ino v w h =
    let at : iblock i bm.sb.nblocks ≡ i + 11 =
      ap (λ s. iblock i s.nblocks) v.formatted ∙ (omega arith) in
    let old = bm.d.blocks (i + 11) in
    let image = encode ino old in
    let sized : length image ≡ 512 = length-encode ino old ∙ v.disk.sized (i + 11) in
    let bytes : AreBytes image = encode-AreBytes ino old (v.disk.bytes (i + 11)) in
    let r = put_block bm (i + 11) image in
    let w' : r.d.blocks ≡ update bm.d.blocks (i + 11) image =
      write_block-blocks bm.d (i + 11) image (omega arith) sized in
    let here : r.d.blocks (i + 11) ≡ image = rw w' (ground arith) in
    (
      r,
      rw (get_slot_block bm i v.formatted h, at) refl,
      record {
        valid = record {
          formatted = v.formatted;
          disk = rw w' (update-IsDisk bm.d.blocks (i + 11) image v.disk sized bytes);
        };
        using_same = refl;
        here =
            ap decode here
            ∙ decode-encode ino old w (v.disk.bytes (i + 11)) (v.disk.sized (i + 11));
        others = λ b q. rw w' (ground (arith, q));
      },
    )
