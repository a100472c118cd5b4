-- ===== src/Fs/Manager/Data.antt =====
-- The data of a file: freeing blocks, and writing and reading whole blocks.
use cse_labs.Prelude.{
  ℕ, zero, suc, ◌+◌, ◌*◌, ◌<◌, ◌≤◌, ◌≡◌, refl, sym, ap, ◌∙◌, ◌≢◌, some, ◌++◌, arith, Bytes, length,
  take, drop, lt→ltb, length-take, length-drop, take-add, All-take, All-drop,
}
use cse_labs.Fs.Inode.{Inode, AreBytes}
use cse_labs.Fs.Disk.{
  BlockManager, block_num, ndirect, get_block, put_block, read_block, free_block, update,
}
use cse_labs.Fs.Manager.{get_nth_blockid, free_blocks, write_blocks, read_blocks}
use cse_labs.Fs.Manager.Layout.{
  indirect, nth, Layout, get_nth_blockid-Layout, write_block-blocks, update-IsDisk,
}
use cse_labs.Fs.Manager.Grow.{Gives}

abbrev pub with_using : BlockManager → (ℕ → ℕ) → BlockManager
with_using bm u = record bm { using_blocks = u }

-- A block behind the first `k` is freed: those stay as they were.
Layout-free :
    {bm : BlockManager} {ino : Inode} {k big : ℕ} (u : ℕ → ℕ) (j : ℕ)
    → Layout bm ino big
    → Layout (with_using bm u) ino k
    → k ≤ j
    → j < big
    → Layout (with_using bm (update u (nth bm.d.blocks ino j) 0)) ino k
Layout-free u j lb l h hb = record {
  formatted = l.formatted;
  disk = l.disk;
  full = l.full;
  fit = l.fit;
  short = l.short;
  in_data = l.in_data;
  in_use = λ n q. ground (arith, l.in_use n, lb.distinct n j);
  distinct = l.distinct;
  indirect_low = l.indirect_low;
  indirect_high = l.indirect_high;
  indirect_use = λ z. ground (arith, l.indirect_use z, lb.indirect_apart z j);
  indirect_apart = l.indirect_apart;
  indirect_needed = l.indirect_needed;
}

pub get_nth_blockid-with_using :
    (bm : BlockManager) (u : ℕ → ℕ) (ino : Inode) (n : ℕ)
    → get_nth_blockid (with_using bm u) ino n ≡ get_nth_blockid bm ino n
unfolding get_nth_blockid get_block
get_nth_blockid-with_using bm u ino n = refl

free_blocks-Layout :
    {bm : BlockManager} {ino : Inode} {k big : ℕ} (u : ℕ → ℕ) (n j : ℕ)
    → Layout bm ino big
    → Layout (with_using bm u) ino k
    → k ≤ j
    → j + n ≤ big
    → Gives (λ r. Layout r ino k × (r.d ≡ bm.d)) (free_blocks (with_using bm u) ino j n)
unfolding free_blocks free_block
free_blocks-Layout {bm} u zero j lb l h hb = (with_using bm u, refl, (l, refl))
free_blocks-Layout {bm} {ino} u (suc n) j lb l h hb =
    let at : get_nth_blockid (with_using bm u) ino j ≡ some (nth bm.d.blocks ino j) =
      get_nth_blockid-with_using bm u ino j ∙ get_nth_blockid-Layout lb j (omega arith) in
    rw at (
      free_blocks-Layout (update u (nth bm.d.blocks ino j) 0) n (j + 1) lb
        (Layout-free u j lb l h (omega arith)) (omega arith) (omega arith))

-- A file with fewer blocks.
pub Layout-shrink :
    {bm : BlockManager} {ino : Inode} {k : ℕ} (j : ℕ) → Layout bm ino k → j ≤ k → Layout bm ino j
Layout-shrink j l h = record {
  formatted = l.formatted;
  disk = l.disk;
  full = l.full;
  fit = l.fit;
  short = omega (arith, l.short);
  in_data = λ n q. l.in_data n (omega arith);
  in_use = λ n q. l.in_use n (omega arith);
  distinct = λ m n p q. l.distinct m n p (omega arith);
  indirect_low = l.indirect_low;
  indirect_high = l.indirect_high;
  indirect_use = l.indirect_use;
  indirect_apart = λ z n q. l.indirect_apart z n (omega arith);
  indirect_needed = λ q. l.indirect_needed (omega arith);
}

-- The loop that frees what a shorter file does not need.
pub free_blocks-shrinks :
    {bm : BlockManager} {ino : Inode} (k n : ℕ)
    → Layout bm ino (k + n)
    → Gives (λ r. Layout r ino k × (r.d ≡ bm.d)) (free_blocks bm ino k n)
free_blocks-shrinks {bm} k n l =
    free_blocks-Layout bm.using_blocks n k l (Layout-shrink k l (omega arith)) (omega arith)
      (omega arith)

-- A write to a block that is not the block of addresses leaves the addresses.
nth-update :
    (blocks : ℕ → Bytes) (ino : Inode) (id : ℕ) (buf : Bytes) (n : ℕ)
    → (ndirect ≤ n → id ≢ indirect ino)
    → nth (update blocks id buf) ino n ≡ nth blocks ino n
unfolding nth
nth-update blocks ino id buf n h = ground arith

module _ {bm : BlockManager} {ino : Inode} {k : ℕ} (l : Layout bm ino k) (i : ℕ) (h : i < k) where
  abbrev block_at : ℕ
  block_at = nth bm.d.blocks ino i

  nth-update_at :
      (buf : Bytes) (n : ℕ)
      → n < k
      → nth (update bm.d.blocks block_at buf) ino n ≡ nth bm.d.blocks ino n
  nth-update_at buf n q =
      nth-update bm.d.blocks ino block_at buf n
        (λ z. l.indirect_apart (λ x. l.indirect_needed (omega arith) x) i h)

  pub blocks-put :
      (buf : Bytes)
      → length buf ≡ 512
      → (put_block bm block_at buf).d.blocks ≡ update bm.d.blocks block_at buf
  blocks-put buf z = write_block-blocks bm.d block_at buf (omega (arith, l.in_data i h)) z

  pub nth-put :
      (buf : Bytes)
      → length buf ≡ 512
      → (n : ℕ) → n < k
      → nth (put_block bm block_at buf).d.blocks ino n ≡ nth bm.d.blocks ino n
  nth-put buf z n q = rw (blocks-put buf z) (nth-update_at buf n q)

  -- A write to a block of the file keeps the layout.
  pub Layout-put :
      (buf : Bytes) → length buf ≡ 512 → AreBytes buf → Layout (put_block bm block_at buf) ino k
  Layout-put buf z bs = record {
    formatted = l.formatted;
    disk = rw (blocks-put buf z) (update-IsDisk bm.d.blocks block_at buf l.disk z bs);
    full = l.full;
    fit = l.fit;
    short = l.short;
    in_data = λ n q. rw (nth-put buf z n q) (l.in_data n q);
    in_use = λ n q. rw (nth-put buf z n q) (l.in_use n q);
    distinct =
        λ m n p q. rw (nth-put buf z n q, nth-put buf z m (omega arith)) (l.distinct m n p q);
    indirect_low = l.indirect_low;
    indirect_high = l.indirect_high;
    indirect_use = l.indirect_use;
    indirect_apart = λ x n q. rw (nth-put buf z n q) (l.indirect_apart x n q);
    indirect_needed = l.indirect_needed;
  }

  pub get_put :
      (buf : Bytes)
      → length buf ≡ 512
      → AreBytes buf
      → (get_nth_blockid (put_block bm block_at buf) ino i ≡ some block_at)
        × (get_block (put_block bm block_at buf) block_at ≡ some buf)
  unfolding get_block read_block
  get_put buf z bs = (
    get_nth_blockid-Layout (Layout-put buf z bs) i h ∙ ap some (nth-put buf z i h),
    rw (blocks-put buf z) (ground (arith, l.in_data i h)),
  )

-- `r` is `bm` with new contents in the blocks from `i` to `i + n` of the file.
pub record Written (bm : BlockManager) (ino : Inode) (k i n : ℕ) (r : BlockManager) : Type 0 where
  pub layout : Layout r ino k
  pub same : (m : ℕ) → m < k → nth r.d.blocks ino m ≡ nth bm.d.blocks ino m
  pub frame :
      (b : ℕ)
      → ((m : ℕ) → i ≤ m → m < i + n → nth bm.d.blocks ino m ≢ b)
      → r.d.blocks b ≡ bm.d.blocks b

-- Reading a block of a file.
pub get_block-Layout :
    {bm : BlockManager} {ino : Inode} {k : ℕ}
    → Layout bm ino k
    → (n : ℕ) → n < k
    → get_block bm (nth bm.d.blocks ino n) ≡ some (bm.d.blocks (nth bm.d.blocks ino n))
unfolding get_block read_block
get_block-Layout {bm} {ino} l n h =
    ground (arith, lt→ltb (nth bm.d.blocks ino n) block_num (omega (arith, l.in_data n h)))

-- The first block that is written, and what the later writes leave of it.
module _ {bm : BlockManager} {ino : Inode} {k : ℕ} (i n : ℕ) (l : Layout bm ino k)
    (h : i + suc n ≤ k) (chunk : Bytes) (z : length chunk ≡ 512) {r : BlockManager}
    (w : Written (put_block bm (nth bm.d.blocks ino i) chunk) ino k (i + 1) n r) where
  chunk_at : (put_block bm (nth bm.d.blocks ino i) chunk).d.blocks (nth bm.d.blocks ino i) ≡ chunk
  chunk_at = rw (blocks-put l i (omega arith) chunk z) (ground arith)

  Written-cons : Written bm ino k i (suc n) r
  Written-cons = record {
    layout = w.layout;
    same = λ m q. w.same m q ∙ nth-put l i (omega arith) chunk z m q;
    frame = λ b q.
        w.frame b (λ m p p'.
          rw (nth-put l i (omega arith) chunk z m (omega arith)) (q m (omega arith) (omega arith)))
        ∙ (rw (blocks-put l i (omega arith) chunk z) (ground (arith, q i)));
  }

  get_first :
      (get_nth_blockid r ino i ≡ some (nth bm.d.blocks ino i))
      × (get_block r (nth bm.d.blocks ino i) ≡ some chunk)
  get_first =
      let here : i < k = omega arith in
      let at = Written-cons.same i here in
      let kept : r.d.blocks (nth bm.d.blocks ino i) ≡ chunk =
        w.frame (nth bm.d.blocks ino i) (λ m p q.
          rw (nth-put l i here chunk z m (omega arith))
            (λ x. l.distinct i m (omega arith) (omega arith) (sym x)))
        ∙ chunk_at in
      (
        get_nth_blockid-Layout w.layout i here ∙ ap some at,
        ground (arith, get_block-Layout w.layout i here, at, kept),
      )

pub write_blocks-Written :
    (n : ℕ) {bm : BlockManager} {ino : Inode} {k : ℕ} (i : ℕ) (buf : Bytes)
    → Layout bm ino k
    → i + n ≤ k
    → 512 * n ≤ length buf
    → AreBytes buf
    → Gives
        (λ r. Written bm ino k i n r × (read_blocks r ino i n ≡ some (take (512 * n) buf)))
        (write_blocks bm ino i n buf)
unfolding write_blocks read_blocks
write_blocks-Written zero {bm} i buf l h s bs =
    (bm, refl, (record { layout = l; same = λ m q. refl; frame = λ b q. refl }, refl))
write_blocks-Written (suc n) {bm} {ino} {k} i buf l h s bs =
    let here : i < k = omega arith in
    let chunk = take 512 buf in
    let z : length chunk ≡ 512 = omega (arith, length-take 512 buf) in
    let l1 = Layout-put l i here chunk z (All-take (λ b. b < 256) 512 buf bs) in
    let (r, e, (w, c)) =
      write_blocks-Written n (i + 1) (drop 512 buf) l1 (omega arith)
        (omega (arith, length-drop 512 buf)) (All-drop (λ b. b < 256) 512 buf bs) in
    let (at, kept) = get_first i n l h chunk z w in
    let split : take (512 * suc n) buf ≡ chunk ++ take (512 * n) (drop 512 buf) =
      ap (λ m. take m buf) (omega arith) ∙ take-add 512 (512 * n) buf in
    (
      r,
      rw (get_nth_blockid-Layout l i here) e,
      (Written-cons i n l h chunk z w, rw (at, kept, c, split) refl),
    )

-- A write outside the data of files keeps the layout and all blocks of the file.
module _ {bm : BlockManager} {ino : Inode} {k : ℕ} (l : Layout bm ino k) (id : ℕ) (low : id < 1035)
    (buf : Bytes) (z : length buf ≡ 512) (bs : AreBytes buf) where
  pub blocks-outside : (put_block bm id buf).d.blocks ≡ update bm.d.blocks id buf
  blocks-outside = write_block-blocks bm.d id buf (omega arith) z

  pub nth-outside :
      (n : ℕ) → n < k → nth (put_block bm id buf).d.blocks ino n ≡ nth bm.d.blocks ino n
  nth-outside n q = rw blocks-outside (
      nth-update bm.d.blocks ino id buf n
        (λ h e. ground (arith, l.indirect_low, l.indirect_needed)))

  pub Layout-outside : Layout (put_block bm id buf) ino k
  Layout-outside = record {
    formatted = l.formatted;
    disk = rw blocks-outside (update-IsDisk bm.d.blocks id buf l.disk z bs);
    full = l.full;
    fit = l.fit;
    short = l.short;
    in_data = λ n q. rw (nth-outside n q) (l.in_data n q);
    in_use = λ n q. rw (nth-outside n q) (l.in_use n q);
    distinct = λ m n p q. rw (nth-outside n q, nth-outside m (omega arith)) (l.distinct m n p q);
    indirect_low = l.indirect_low;
    indirect_high = l.indirect_high;
    indirect_use = l.indirect_use;
    indirect_apart = λ x n q. rw (nth-outside n q) (l.indirect_apart x n q);
    indirect_needed = l.indirect_needed;
  }

-- The layout does not depend on the size and the times in the inode.
pub Layout-stat :
    {bm : BlockManager} {ino : Inode} {k : ℕ} (size atime mtime ctime : ℕ)
    → Layout bm ino k
    → Layout bm (record ino { size = size; atime = atime; mtime = mtime; ctime = ctime }) k
unfolding nth
Layout-stat size atime mtime ctime l = record {
  formatted = l.formatted;
  disk = l.disk;
  full = l.full;
  fit = l.fit;
  short = l.short;
  in_data = l.in_data;
  in_use = l.in_use;
  distinct = l.distinct;
  indirect_low = l.indirect_low;
  indirect_high = l.indirect_high;
  indirect_use = l.indirect_use;
  indirect_apart = l.indirect_apart;
  indirect_needed = l.indirect_needed;
}

pub nth-stat :
    (blocks : ℕ → Bytes) (ino : Inode) (size atime mtime ctime n : ℕ)
    → nth blocks (record ino { size = size; atime = atime; mtime = mtime; ctime = ctime }) n
      ≡ nth blocks ino n
unfolding nth
nth-stat blocks ino size atime mtime ctime n = refl
