-- ===== src/Fs/Manager/RoundTrip.antt =====
-- What `write_file` writes, `read_file` reads back.
use cse_labs.Prelude.{
  ℕ, ◌*◌, ◌/◌, ◌%◌, ◌^◌, ◌<◌, ◌≡◌, refl, subst, ap, ◌∙◌, some, ◌++◌, arith, ltb, leb, Bytes, length,
  take, drop, true, false, lt→ltb, take-append-drop, >>=-eq-some,
}
use cse_labs.Fs.Inode.{
  Inode, AreBytes, IsInode, encode, decode, decode-encode, length-encode, encode-AreBytes,
}
use cse_labs.Fs.Disk.{
  BlockManager, block_num, block_size, inode_num, iblock, maxfile, get_block, put_block, read_block,
}
use cse_labs.Fs.Manager.{
  get_inode, put_inode, blocks_for, write_blocks, Times, write_inode, write_file, read_blocks,
  read_rest, read_inode, read_file,
}
use cse_labs.Fs.Manager.Layout.{nth, Layout}
use cse_labs.Fs.Manager.Grow.{Gives}
use cse_labs.Fs.Manager.Data.{blocks-outside, nth-outside, Layout-outside, Layout-stat, nth-stat}
use cse_labs.Fs.Manager.Content.{
  read_blocks-frame, read_rest-frame, FileAt, HasRoom, resize-Layout, blocks_for_bounds,
  get_inode-found, HoldsData, write_data,
}

-- The inode is written outside the data of files, and is read back.
module _ {bm : BlockManager} {ino : Inode} {k : ℕ} (inum : ℕ) (l : Layout bm ino k)
    (v : IsInode ino) (small : inum < 1024) where
  spot : ℕ
  spot = iblock inum bm.sb.nblocks

  spot-low : spot < 1035
  unfolding spot
  spot-low = rw l.formatted (omega arith)

  image : Bytes
  image = encode ino (bm.d.blocks spot)

  image-fits : (length image ≡ 512) × AreBytes image
  unfolding image
  image-fits = (
    length-encode ino (bm.d.blocks spot) ∙ l.disk.sized spot,
    encode-AreBytes ino (bm.d.blocks spot) (l.disk.bytes spot),
  )

  put_inode-runs : put_inode bm inum ino ≡ some (put_block bm spot image)
  unfolding put_inode get_block read_block image spot
  put_inode-runs = rw (lt→ltb spot block_num (omega (arith, spot-low))) refl

  get_image : get_block (put_block bm spot image) spot ≡ some image
  unfolding get_block read_block
  get_image =
      rw (blocks-outside l spot spot-low image image-fits.0 image-fits.1) (ground (arith, spot-low))

  decode-image : decode image ≡ ino
  unfolding image
  decode-image = decode-encode ino (bm.d.blocks spot) v (l.disk.bytes spot) (l.disk.sized spot)

  get_inode-put : get_inode (put_block bm spot image) inum ≡ some (some ino)
  unfolding get_inode spot
  get_inode-put =
      let in_table : leb inode_num inum ≡ false = ground arith in
      rw (in_table, get_image, decode-image) refl

  stored_inode : BlockManager
  stored_inode = put_block bm spot image

  Layout-stored : Layout stored_inode ino k
  unfolding stored_inode
  Layout-stored = Layout-outside l spot spot-low image image-fits.0 image-fits.1

  nth-stored_inode : (n : ℕ) → n < k → nth stored_inode.d.blocks ino n ≡ nth bm.d.blocks ino n
  unfolding stored_inode
  nth-stored_inode = nth-outside l spot spot-low image image-fits.0 image-fits.1

  data-stored :
      (n : ℕ)
      → n < k
      → stored_inode.d.blocks (nth bm.d.blocks ino n) ≡ bm.d.blocks (nth bm.d.blocks ino n)
  unfolding stored_inode
  data-stored n q =
      rw (blocks-outside l spot spot-low image image-fits.0 image-fits.1)
        (ground (arith, l.in_data n q, spot-low))

read_inode-holds :
    (bm : BlockManager) (ino : Inode) (buf : Bytes)
    → ino.size ≡ length buf
    → length buf < maxfile * 512
    → read_blocks bm ino 0 (ino.size / 512) ≡ some (take (512 * (length buf / 512)) buf)
    → read_rest bm ino (ino.size / 512) (ino.size % 512) ≡ some (drop (length buf / 512 * 512) buf)
    → read_inode bm ino ≡ some buf
unfolding read_inode
read_inode-holds bm ino buf s h front back =
    let fits : leb ino.size (maxfile * block_size) ≡ true = ground arith in
    let whole : take (512 * (length buf / 512)) buf ++ drop (length buf / 512 * 512) buf ≡ buf =
      ap (λ m. take m buf ++ drop (length buf / 512 * 512) buf) (omega arith)
      ∙ take-append-drop (length buf / 512 * 512) buf in
    rw (fits, front, back) (ap some whole)

read_file-found :
    (bm : BlockManager) (inum : ℕ) (ino : Inode) (buf : Bytes)
    → get_inode bm inum ≡ some (some ino)
    → read_inode bm ino ≡ some buf
    → read_file bm inum ≡ some (some buf)
unfolding read_file
read_file-found bm inum ino buf f h = rw (f, h) refl

-- The inode is put on the disk, and reading the file gives its data.
finish :
    {bm3 : BlockManager} {ino1 : Inode} (inum : ℕ) (buf : Bytes) (t : Times)
    → HoldsData ino1 (blocks_for (length buf)) buf bm3
    → ino1.type < 2 ^ 16
    → inum < 1024
    → length buf < maxfile * 512
    → t.atime < 2 ^ 32
    → t.mtime < 2 ^ 32
    → t.ctime < 2 ^ 32
    → Gives
        (λ r.
          (read_file r inum ≡ some (some buf))
          × FileAt r inum (record ino1 {
            size = length buf;
            atime = t.atime;
            mtime = t.mtime;
            ctime = t.ctime;
          }))
        (put_inode bm3 inum
          (record ino1 { size = length buf; atime = t.atime; mtime = t.mtime; ctime = t.ctime }))
finish {bm3 = bm3} {ino1 = ino1} inum buf t d ty small len ta tm tc =
    let ino2 = record ino1 {
      size = length buf;
      atime = t.atime;
      mtime = t.mtime;
      ctime = t.ctime;
    } in
    let l2 = Layout-stat (length buf) t.atime t.mtime t.ctime d.layout in
    let v : IsInode ino2 = record {
      type_fits = ty;
      size_fits = omega arith;
      atime_fits = ta;
      mtime_fits = tm;
      ctime_fits = tc;
      blocks_fit = l2.fit;
      full = l2.full;
    } in
    let r = stored_inode inum l2 v small in
    let found : get_inode r inum ≡ some (some ino2) =
      unfold stored_inode in get_inode-put inum l2 v small in
    let n = length buf / 512 in
    let b = blocks_for_bounds (length buf) len in
    let l3 = Layout-stored inum l2 v small in
    let same : (m : ℕ)
        → m < blocks_for (length buf)
        → nth r.d.blocks ino2 m ≡ nth bm3.d.blocks ino1 m =
      λ m q.
        nth-stored_inode inum l2 v small m q
        ∙ nth-stat bm3.d.blocks ino1 (length buf) t.atime t.mtime t.ctime m in
    let data_kept : (m : ℕ)
        → m < blocks_for (length buf)
        → r.d.blocks (nth bm3.d.blocks ino1 m) ≡ bm3.d.blocks (nth bm3.d.blocks ino1 m) =
      λ m q.
        subst (λ a. r.d.blocks a ≡ bm3.d.blocks a)
          (nth-stat bm3.d.blocks ino1 (length buf) t.atime t.mtime t.ctime m)
          (data-stored inum l2 v small m q) in
    let front = read_blocks-frame d.layout l3 same data_kept n 0 (omega (arith, b.0)) ∙ d.front in
    let back = read_rest-frame d.layout l3 same data_kept n (length buf % 512) b.2 ∙ d.back in
    let content = read_inode-holds r ino2 buf refl len front back in
    (
      r,
      (unfold stored_inode in put_inode-runs inum l2 v small),
      (
        read_file-found r inum ino2 buf found content,
        record { found = found; layout = l3; type_fits = ty },
      ),
    )

write_inode-RoundTrip :
    {bm : BlockManager} {ino : Inode} (inum : ℕ) (buf temp : Bytes) (t : Times)
    → FileAt bm inum ino
    → length buf < maxfile * 512
    → HasRoom bm ino (length buf)
    → AreBytes buf
    → (length temp ≡ 512) × AreBytes temp
    → (t.atime < 2 ^ 32) × (t.mtime < 2 ^ 32) × (t.ctime < 2 ^ 32)
    → Gives
        (λ r.
          (read_file r inum ≡ some (some buf))
          × ((ino' : Inode) × FileAt r inum ino'
              × (ino'.size ≡ length buf)
              × (ino'.type ≡ ino.type)))
        (write_inode bm inum ino buf temp t)
unfolding write_inode
write_inode-RoundTrip {bm} {ino} inum buf temp t v len room bs ts times =
    let b = blocks_for_bounds (length buf) len in
    let ((bm1, ino1), e, (l1, ty)) =
      resize-Layout (blocks_for ino.size) (blocks_for (length buf)) v.layout b.1 room in
    let (bm3, e3, d) = write_data buf temp l1 b.0 b.2 ts.0 bs ts.1 in
    let (r, e4, (content, at)) =
      finish inum buf t d (rw ty v.type_fits) (get_inode-found bm inum v.found) len times.0 times.1
        times.2 in
    let (bm2, p, q) = >>=-eq-some (write_blocks bm1 ino1 0 (length buf / 512) buf) _ e3 in
    (r, rw (e, p, q) e4, (content, (_, at, refl, ty)))

-- A file that is written is read back byte for byte, whatever its size was before and whether its
-- blocks are direct or not, and it stands on the disk as before, with its new size; the stale bytes
-- of the buffer for the last block do not show. The conditions: the file's blocks are laid out, the
-- data is shorter than the largest file, and the disk has a block for each that the file needs more
-- and one to spare.
pub read_file-write_file :
    {bm : BlockManager} {ino : Inode} (inum : ℕ) (buf temp : Bytes) (t : Times)
    → FileAt bm inum ino
    → length buf < maxfile * 512
    → HasRoom bm ino (length buf)
    → AreBytes buf
    → (length temp ≡ 512) × AreBytes temp
    → (t.atime < 2 ^ 32) × (t.mtime < 2 ^ 32) × (t.ctime < 2 ^ 32)
    → (r : BlockManager) × (write_file bm inum buf temp t ≡ some r)
      × (read_file r inum ≡ some (some buf))
      × ((ino' : Inode) × FileAt r inum ino' × (ino'.size ≡ length buf) × (ino'.type ≡ ino.type))
unfolding write_file
read_file-write_file {bm} {ino} inum buf temp t v len room bs ts times =
    let (r, e, (content, at)) = write_inode-RoundTrip inum buf temp t v len room bs ts times in
    let fits : ltb (length buf) (maxfile * block_size) ≡ true = lt→ltb _ _ len in
    (r, rw (fits, v.found) e, content, at)
