-- ===== src/Fs/Manager/Content.antt =====
-- The contents of a file after its blocks are resized and written.
use cse_labs.Prelude.{
  ℕ, zero, suc, min, ◌+◌, ◌-◌, ◌*◌, ◌/◌, ◌%◌, ◌^◌, ◌<◌, ◌≤◌, ◌≡◌, refl, sym, subst, ap, ◌∙◌, ◌≢◌,
  inl, inr, some, [], ◌∷◌, ◌++◌, arith, ltb, leb, Bytes, length, take, drop, ◌>>=◌, Bool-cases,
  ltb→lt, length-drop, length-append, All-append, All-drop, take_append, length-pos,
}
use cse_labs.Fs.Inode.{Inode, AreBytes}
use cse_labs.Fs.Disk.{BlockManager, inode_num, maxfile, get_block, put_block}
use cse_labs.Fs.Manager.{
  get_inode, get_nth_blockid, blocks_for, resize, write_blocks, write_rest, read_blocks, read_rest,
}
use cse_labs.Fs.Manager.Layout.{nth, Layout, get_nth_blockid-Layout}
use cse_labs.Fs.Manager.Grow.{Gives, spare, alloc_blocks-Grown}
use cse_labs.Fs.Manager.Data.{
  Layout-shrink, free_blocks-shrinks, Written, write_blocks-Written, Layout-put, blocks-put,
  nth-put, get_block-Layout, get_put,
}

-- Reading depends on the addresses of the file and on the contents of its blocks.
module _ {bm bm' : BlockManager} {ino ino' : Inode} {k : ℕ} (l : Layout bm ino k)
    (l' : Layout bm' ino' k) (s : (m : ℕ) → m < k → nth bm'.d.blocks ino' m ≡ nth bm.d.blocks ino m)
    (f : (m : ℕ)
      → m < k
      → bm'.d.blocks (nth bm.d.blocks ino m) ≡ bm.d.blocks (nth bm.d.blocks ino m)) where
  get-frame :
      (i : ℕ)
      → i < k
      → (get_nth_blockid bm' ino' i ≡ some (nth bm.d.blocks ino i))
        × (get_block bm' (nth bm.d.blocks ino i) ≡ some (bm.d.blocks (nth bm.d.blocks ino i)))
  get-frame i h = (
    get_nth_blockid-Layout l' i h ∙ ap some (s i h),
    subst (λ a. get_block bm' a ≡ some (bm'.d.blocks a)) (s i h) (get_block-Layout l' i h)
        ∙ ap some (f i h),
  )

  pub read_blocks-frame : (n i : ℕ) → i + n ≤ k → read_blocks bm' ino' i n ≡ read_blocks bm ino i n
  unfolding read_blocks
  read_blocks-frame zero i h = refl
  read_blocks-frame (suc n) i h =
      let (at, got) = get-frame i (omega arith) in
      rw
        (
          at,
          got,
          read_blocks-frame n (i + 1) (omega arith),
          get_nth_blockid-Layout l i (omega arith),
          get_block-Layout l i (omega arith),
        )
        refl

  pub read_rest-frame : (i n : ℕ) → (0 < n → i < k) → read_rest bm' ino' i n ≡ read_rest bm ino i n
  unfolding read_rest
  read_rest-frame i zero h = refl
  read_rest-frame i (suc n) h =
      let here : i < k = h (omega arith) in
      let (at, got) = get-frame i here in
      rw (at, got, get_nth_blockid-Layout l i here, get_block-Layout l i here) refl

-- The last, partial block.
write_rest-Written :
    {bm : BlockManager} {ino : Inode} {k : ℕ} (i : ℕ) (rest temp : Bytes)
    → Layout bm ino k
    → (rest ≢ [] → i < k)
    → length rest < 512
    → length temp ≡ 512
    → AreBytes rest
    → AreBytes temp
    → Gives
        (λ r.
          Written bm ino k i (min 1 (length rest)) r
          × (read_rest r ino i (length rest) ≡ some rest))
        (write_rest bm ino i rest temp)
unfolding write_rest read_rest
write_rest-Written {bm} i [] temp l h s z bs ts =
    (bm, refl, (record { layout = l; same = λ m q. refl; frame = λ b q. refl }, refl))
write_rest-Written {bm} {ino} {k} i (x ∷ rest) temp l h s z bs ts =
    let here : i < k = h (λ e. cc) in
    let full = (x ∷ rest) ++ drop (length (x ∷ rest)) temp in
    let fl : length full ≡ 512 = omega (
      arith,
      length-append (x ∷ rest) (drop (length (x ∷ rest)) temp),
      length-drop (length (x ∷ rest)) temp,
    ) in
    let bytes =
      All-append (λ b. b < 256) (x ∷ rest) (drop (length (x ∷ rest)) temp) bs
        (All-drop (λ b. b < 256) (length (x ∷ rest)) temp ts) in
    let l1 = Layout-put l i here full fl bytes in
    let bm1 = put_block bm (nth bm.d.blocks ino i) full in
    let (at, got) = get_put l i here full fl bytes in
    (
      bm1,
      rw (get_nth_blockid-Layout l i here) refl,
      (
        record {
          layout = l1;
          same = λ m q. nth-put l i here full fl m q;
          frame = λ b q.
              rw (blocks-put l i here full fl) (ground (arith, q i (omega arith) (omega arith)));
        },
        rw (at, got) (ap some (take_append (x ∷ rest) (drop (length (x ∷ rest)) temp))),
      ),
    )

-- An inode that stands on the disk with its blocks.
pub record FileAt (bm : BlockManager) (inum : ℕ) (ino : Inode) : Type 0 where
  pub found : get_inode bm inum ≡ some (some ino)
  pub layout : Layout bm ino (blocks_for ino.size)
  pub type_fits : ino.type < 2 ^ 16

-- The disk has room for the blocks that a file of `size` bytes needs beyond those it has.
abbrev pub HasRoom : BlockManager → Inode → ℕ → Type 0
HasRoom bm ino size =
    blocks_for ino.size < blocks_for size → blocks_for size - blocks_for ino.size + 1 ≤ spare bm ino

pub resize-Layout :
    {bm : BlockManager} {ino : Inode} (old new : ℕ)
    → Layout bm ino old
    → new ≤ maxfile
    → (old < new → new - old + 1 ≤ spare bm ino)
    → Gives (λ r. Layout r.0 r.1 new × (r.1.type ≡ ino.type)) (resize bm ino old new)
unfolding resize
resize-Layout {bm} {ino} old new l m room = elim (Bool-cases (ltb old new)) [
  | inl p ↦
      let h = ltb→lt old new p in
      let (r, e, g) = alloc_blocks-Grown (new - old) old l (omega arith) (room h) in
      (r, rw p e, (subst (λ j. Layout r.0 r.1 j) (omega arith) g.layout, g.kept))
  | inr p ↦
      let (r, e, (g, _)) =
        free_blocks-shrinks new (old - new) (subst (λ j. Layout bm ino j) (ground arith) l) in
      ((r, ino), rw (p, e) refl, (g, refl))
]

pub blocks_for_bounds :
    (n : ℕ)
    → n < maxfile * 512
    → (n / 512 ≤ blocks_for n) × (blocks_for n ≤ maxfile) × (0 < n % 512 → n / 512 < blocks_for n)
unfolding blocks_for
blocks_for_bounds n h = (ground arith, ground arith, λ q. ground arith)

pub get_inode-found :
    (bm : BlockManager) (inum : ℕ) {ino : Inode} → get_inode bm inum ≡ some (some ino) → inum < 1024
unfolding get_inode
get_inode-found bm inum e = elim (Bool-cases (leb inode_num inum)) [
  | inl p ↦ ground arith
  | inr p ↦ ground arith
]

-- The data of a file: the full blocks, then the rest.
pub record HoldsData (ino : Inode) (k : ℕ) (buf : Bytes) (r : BlockManager) : Type 0 where
  pub layout : Layout r ino k
  pub front : read_blocks r ino 0 (length buf / 512) ≡ some (take (512 * (length buf / 512)) buf)
  pub back :
      read_rest r ino (length buf / 512) (length buf % 512)
      ≡ some (drop (length buf / 512 * 512) buf)

pub write_data :
    {bm : BlockManager} {ino : Inode} {k : ℕ} (buf temp : Bytes)
    → Layout bm ino k
    → length buf / 512 ≤ k
    → (0 < length buf % 512 → length buf / 512 < k)
    → length temp ≡ 512
    → AreBytes buf
    → AreBytes temp
    → Gives (HoldsData ino k buf) (
        write_blocks bm ino 0 (length buf / 512) buf >>= λ bm2.
        write_rest bm2 ino (length buf / 512) (drop (length buf / 512 * 512) buf) temp)
write_data {bm} {ino} {k} buf temp l h h' z bs ts =
    let n = length buf / 512 in
    let rest = drop (n * 512) buf in
    let short : length rest ≡ length buf % 512 = omega (arith, length-drop (n * 512) buf) in
    let (bm2, e, (w, c)) = write_blocks-Written n 0 buf l (omega arith) (omega arith) bs in
    let some_rest : rest ≢ [] → n < k = λ q. h' (omega (arith, short, length-pos rest q)) in
    let (bm3, e', (w', c')) =
      write_rest-Written n rest temp w.layout some_rest (omega (arith, short)) z
        (All-drop (λ b. b < 256) (n * 512) buf bs) ts in
    let last : (j : ℕ) → n ≤ j → j < n + min 1 (length rest) → j < k =
      λ j p p'. omega (arith, h' (omega (arith, short))) in
    let keep : read_blocks bm3 ino 0 n ≡ read_blocks bm2 ino 0 n =
      read_blocks-frame (Layout-shrink n w.layout h) (Layout-shrink n w'.layout h)
        (λ m q. w'.same m (omega arith))
        (λ m q. w'.frame _ (λ j p p' x. w.layout.distinct m j (omega arith) (last j p p') (sym x)))
        n 0 (omega arith) in
    (
      bm3,
      rw e e',
      record {
        layout = w'.layout;
        front = keep ∙ c;
        back = subst (λ m. read_rest bm3 ino n m ≡ some rest) short c';
      },
    )
