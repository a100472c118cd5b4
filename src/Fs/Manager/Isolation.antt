-- ===== src/Fs/Manager/Isolation.antt =====
-- inode_manager.cc: the files on a disk do not disturb each other.
use cse_labs.Prelude.{
  ℕ, ◌-◌, ◌*◌, ◌/◌, ◌%◌, ◌^◌, ◌<◌, ◌≤◌, ◌≡◌, ◌≢◌, refl, sym, subst, ap, ◌∙◌, inl, inr, true, false,
  some, arith, ltb, leb, Bytes, length, lt→ltb, Bool-cases, ◌>>=◌, given_answer,
}
use cse_labs.Fs.Words.{word_at}
use cse_labs.Fs.Inode.{Inode, AreBytes, decode}
use cse_labs.Fs.Disk.{
  BlockManager, ndirect, maxfile, inode_num, block_num, block_size, iblock, initial_sb, get_block,
  read_block,
}
use cse_labs.Fs.Manager.{get_inode, blocks_for, Times, write_file, read_file, read_inode}
use cse_labs.Fs.Manager.Layout.{nth, indirect, Layout}
use cse_labs.Fs.Manager.Content.{
  FileAt, HasRoom, get_inode-found, read_blocks-frame, read_rest-frame,
}
use cse_labs.Fs.Manager.RoundTrip.{read_file-write_file}
use cse_labs.Fs.Manager.Guard.{Guarded, Apart}
use cse_labs.Fs.Manager.Others.{Owns, Disjoint, Owns-low, write_inode-Guarded}

-- The blocks that a file reads.
blocks_for-bounds : (n : ℕ) → (n / 512 ≤ blocks_for n) × (0 < n % 512 → n / 512 < blocks_for n)
unfolding blocks_for
blocks_for-bounds n = (ground arith, λ q. ground arith)

get_inode_at :
    (bm : BlockManager) (inum : ℕ)
    → bm.sb ≡ initial_sb
    → inum < 1024
    → get_inode bm inum ≡ some (some (decode (bm.d.blocks (iblock inum block_num))))
unfolding get_inode get_block read_block
get_inode_at bm inum f h =
    let in_table : leb inode_num inum ≡ false = ground arith in
    rw (f, in_table, lt→ltb (iblock inum block_num) block_num (omega arith)) refl

-- The guard of a file on the disk that it stands on.
module _ {bm : BlockManager} {other : Inode} (jnum : ℕ) (v : FileAt bm jnum other) where
  k : ℕ
  k = blocks_for other.size

  Own : ℕ → Type 0
  Own = Owns bm other k

  small : jnum < 1024
  small = get_inode-found bm jnum v.found

  spot : ℕ
  spot = iblock jnum block_num

  spot_low : spot < 1035
  unfolding spot
  spot_low = omega (arith, small)

  Own-low : (b : ℕ) → Own b → 1035 ≤ b
  unfolding Own k
  Own-low = Owns-low v.layout

  at_first : Guarded Own spot spot_low bm.d.blocks bm
  unfolding Own k
  at_first = record { kept = λ b o. refl; used = used; inode = refl }
    where
      used : (b : ℕ) → Owns bm other (blocks_for other.size) b → bm.using_blocks b ≢ 0
      used b (inl (n, q, e)) = subst (λ x. bm.using_blocks x ≢ 0) e (v.layout.in_use n q)
      used b (inr (e, z)) =
          subst (λ x. bm.using_blocks x ≢ 0) e (v.layout.indirect_use (λ y. z (sym e ∙ y)))

  apart :
      {ino : Inode}
      → Disjoint bm ino other
      → Apart Own spot spot_low bm.d.blocks bm ino (blocks_for ino.size)
  unfolding Own k
  apart {ino} d = record {
    direct = λ n q o. d (nth bm.d.blocks ino n) (inl (n, q, refl)) o;
    addresses = λ o.
        d (indirect ino) (inr (refl, λ z. omega (arith, z, Owns-low v.layout (indirect ino) o))) o;
  }

  -- The file after the other one was written.
  module _ (r : BlockManager) (g : Guarded Own spot spot_low bm.d.blocks r) {ino : Inode} {j : ℕ}
      (l : Layout r ino j) where
    nth_same :
        (n : ℕ) → n < blocks_for other.size → nth r.d.blocks other n ≡ nth bm.d.blocks other n
    unfolding nth Own k
    nth_same n q = elim (Bool-cases (ltb n ndirect)) [
      | inl e ↦ rw e refl
      | inr e ↦
          let needed = v.layout.indirect_needed (ground (arith, e, q)) in
          rw e (ap (λ b. word_at b (n - ndirect)) (g.kept (indirect other) (inr (refl, needed))))
    ]

    Layout-same : Layout r other (blocks_for other.size)
    unfolding Own k
    Layout-same = record {
      formatted = l.formatted;
      disk = l.disk;
      full = v.layout.full;
      fit = v.layout.fit;
      short = v.layout.short;
      in_data = λ n q. rw (nth_same n q) (v.layout.in_data n q);
      in_use = λ n q. rw (nth_same n q) (g.used (nth bm.d.blocks other n) (inl (n, q, refl)));
      distinct = λ m n p q. rw (nth_same n q, nth_same m (omega arith)) (v.layout.distinct m n p q);
      indirect_low = v.layout.indirect_low;
      indirect_high = v.layout.indirect_high;
      indirect_use = λ z. g.used (indirect other) (inr (refl, z));
      indirect_apart = λ z n q. rw (nth_same n q) (v.layout.indirect_apart z n q);
      indirect_needed = v.layout.indirect_needed;
    }

    found_same : get_inode r jnum ≡ some (some other)
    unfolding spot
    found_same =
        get_inode_at r jnum l.formatted small
        ∙ ap (λ b. some (some (decode b))) g.inode
        ∙ sym (get_inode_at bm jnum v.layout.formatted small)
        ∙ v.found

    read_same : read_inode r other ≡ read_inode bm other
    unfolding read_inode Own k
    read_same =
        let b = blocks_for-bounds other.size in
        let kept : (m : ℕ)
            → m < blocks_for other.size
            → r.d.blocks (nth bm.d.blocks other m) ≡ bm.d.blocks (nth bm.d.blocks other m) =
          λ m q. g.kept (nth bm.d.blocks other m) (inl (m, q, refl)) in
        rw
          (
            read_blocks-frame v.layout Layout-same nth_same kept (other.size / 512) 0
                (omega (arith, b.0)),
            read_rest-frame v.layout Layout-same nth_same kept (other.size / 512) (other.size % 512)
                b.1,
          )
          refl

read_file-found :
    (bm : BlockManager) (inum : ℕ) (ino : Inode)
    → get_inode bm inum ≡ some (some ino)
    → read_file bm inum ≡ (read_inode bm ino >>= λ content. some (some content))
unfolding read_file
read_file-found bm inum ino f = rw f refl

-- Writing a file leaves every other file as it was: it stands on the disk with the same inode, its
-- blocks are laid out as before, and it reads the same. The conditions: the two files are laid out
-- on the disk and have no block in common, and the disk has room for what is written.
pub write_file-isolates :
    {bm : BlockManager} {ino other : Inode} (inum jnum : ℕ) (buf temp : Bytes) (t : Times)
    → FileAt bm inum ino
    → FileAt bm jnum other
    → inum ≢ jnum
    → Disjoint bm ino other
    → length buf < maxfile * 512
    → HasRoom bm ino (length buf)
    → AreBytes buf
    → (length temp ≡ 512) × AreBytes temp
    → (t.atime < 2 ^ 32) × (t.mtime < 2 ^ 32) × (t.ctime < 2 ^ 32)
    → (r : BlockManager) × (write_file bm inum buf temp t ≡ some r)
      × (read_file r jnum ≡ read_file bm jnum)
      × FileAt r jnum other
unfolding write_file
write_file-isolates {bm} {ino} {other} inum jnum buf temp t v w n d len room bs ts times =
    let away : iblock inum block_num ≢ spot jnum w = unfold spot in (λ e. n (omega (arith, e))) in
    let (_, e1, g1) =
      write_inode-Guarded (Own jnum w) (spot jnum w) (spot_low jnum w) bm.d.blocks (Own-low jnum w)
        inum buf temp t v len room bs ts away (at_first jnum w, apart jnum w d) in
    let fits : ltb (length buf) (maxfile * block_size) ≡ true = lt→ltb _ _ len in
    let (r, e, content, (_, at, _, _)) =
      read_file-write_file inum buf temp t v len room bs ts times in
    let g =
      given_answer (Guarded (Own jnum w) (spot jnum w) (spot_low jnum w) bm.d.blocks)
        (sym (rw (fits, v.found) e1) ∙ e) g1 in
    let found = found_same jnum w r g at.layout in
    (
      r,
      e,
      read_file-found r jnum other found
          ∙ ap (λ o. o >>= (λ c. some (some c))) (read_same jnum w r g at.layout)
          ∙ sym (read_file-found bm jnum other w.found),
      record { found = found; layout = Layout-same jnum w r g at.layout; type_fits = w.type_fits },
    )
