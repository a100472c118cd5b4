-- ===== src/Fs/Manager/Others.antt =====
-- inode_manager.cc: another file while a file is written.
use cse_labs.Prelude.{
  ℕ, zero, suc, ◌+◌, ◌-◌, ◌*◌, ◌/◌, ◌%◌, ◌<◌, ◌≤◌, ◌≡◌, ◌≢◌, ◌⊎◌, refl, sym, subst, ◌∙◌, inl, inr,
  [], ◌∷◌, ◌++◌, arith, ltb, Bytes, length, take, drop, ◌>>=◌, Bool-cases, lt→ltb, ltb→lt,
  given_answer, length-take, length-drop, length-append, length-pos, All-take, All-drop,
  >>=-eq-some,
}
use cse_labs.Fs.Inode.{Inode, AreBytes, encode, length-encode}
use cse_labs.Fs.Disk.{BlockManager, maxfile, block_num, iblock, get_block, put_block, read_block}
use cse_labs.Fs.Manager.{
  put_inode, blocks_for, resize, write_blocks, write_rest, Times, write_inode,
}
use cse_labs.Fs.Manager.Layout.{nth, indirect, Layout, get_nth_blockid-Layout}
use cse_labs.Fs.Manager.Grow.{Gives, spare}
use cse_labs.Fs.Manager.Data.{Layout-put, nth-put, write_blocks-Written}
use cse_labs.Fs.Manager.Content.{
  FileAt, HasRoom, resize-Layout, blocks_for_bounds, get_inode-found, write_data,
}
use cse_labs.Fs.Manager.Guard.{Guarded, Apart, put-Guarded, alloc_blocks-Apart, free_blocks-Guarded}

module _ (Own : ℕ → Type 0) (spot : ℕ) (spot_low : spot < 1035) (old : ℕ → Bytes)
    (own_low : (b : ℕ) → Own b → 1035 ≤ b) where
  abbrev Safe : ℕ → BlockManager × Inode → Type 0
  Safe k r = Guarded Own spot spot_low old r.0 × Apart Own spot spot_low old r.0 r.1 k

  resize-Safe :
      {bm : BlockManager} {ino : Inode} (a b : ℕ)
      → Layout bm ino a
      → b ≤ maxfile
      → (a < b → b - a + 1 ≤ spare bm ino)
      → Safe a (bm, ino)
      → Gives (Safe b) (resize bm ino a b)
  unfolding resize
  resize-Safe {bm} {ino} a b l m room (g, p) = elim (Bool-cases (ltb a b)) [
    | inl t ↦
        let h = ltb→lt a b t in
        let (r, e, (g1, p1)) =
          alloc_blocks-Apart Own spot spot_low old (b - a) a l (omega arith) (room h) g p in
        (r, rw t e, (g1, subst (Apart Own spot spot_low old r.0 r.1) (omega arith) p1))
    | inr t ↦
        let (r, e, (g1, d)) =
          free_blocks-Guarded Own spot spot_low old bm.using_blocks (a - b) b l (ground arith) p
            g in
        (
          (r, ino),
          rw (t, e) refl,
          (
            g1,
            record {
              direct =
                  λ n q o. p.direct n (ground arith) (subst (λ x. Own (nth x.blocks ino n)) d o);
              addresses = p.addresses;
            },
          ),
        )
  ]

  -- A write to a block of the file.
  put-Safe :
      {bm : BlockManager} {ino : Inode} {k : ℕ} (i : ℕ) (buf : Bytes)
      → Layout bm ino k
      → i < k
      → length buf ≡ 512
      → Safe k (bm, ino)
      → Safe k (put_block bm (nth bm.d.blocks ino i) buf, ino)
  put-Safe {bm} {ino} {k} i buf l h z (g, p) =
      let at = l.in_data i h in
      (
        put-Guarded Own spot spot_low old bm (nth bm.d.blocks ino i) buf g at.1 z (p.direct i h)
            (λ e. omega (arith, e, at.0, spot_low)),
        record {
          direct = λ n q o. p.direct n q (subst Own (nth-put l i h buf z n q) o);
          addresses = p.addresses;
        },
      )

  write_blocks-Safe :
      (n : ℕ) {bm : BlockManager} {ino : Inode} {k : ℕ} (i : ℕ) (buf : Bytes)
      → Layout bm ino k
      → i + n ≤ k
      → 512 * n ≤ length buf
      → AreBytes buf
      → Safe k (bm, ino)
      → Gives (λ r. Safe k (r, ino)) (write_blocks bm ino i n buf)
  unfolding write_blocks
  write_blocks-Safe zero {bm} i buf l h s bs p = (bm, refl, p)
  write_blocks-Safe (suc n) {bm} {ino} {k} i buf l h s bs p =
      let here : i < k = omega arith in
      let chunk = take 512 buf in
      let z : length chunk ≡ 512 = omega (arith, length-take 512 buf) in
      let l1 = Layout-put l i here chunk z (All-take (λ b. b < 256) 512 buf bs) in
      let (r, e, q) =
        write_blocks-Safe n (i + 1) (drop 512 buf) l1 (omega arith)
          (omega (arith, length-drop 512 buf)) (All-drop (λ b. b < 256) 512 buf bs)
          (put-Safe i chunk l here z p) in
      (r, rw (get_nth_blockid-Layout l i here) e, q)

  write_rest-Safe :
      {bm : BlockManager} {ino : Inode} {k : ℕ} (i : ℕ) (rest temp : Bytes)
      → Layout bm ino k
      → (rest ≢ [] → i < k)
      → length rest < 512
      → length temp ≡ 512
      → Safe k (bm, ino)
      → Gives (λ r. Safe k (r, ino)) (write_rest bm ino i rest temp)
  unfolding write_rest
  write_rest-Safe {bm} i [] temp l h s z p = (bm, refl, p)
  write_rest-Safe {bm} {ino} i (x ∷ rest) temp l h s z p =
      let here = h (λ e. cc) in
      let full = (x ∷ rest) ++ drop (length (x ∷ rest)) temp in
      let fl : length full ≡ 512 = omega (
        arith,
        length-append (x ∷ rest) (drop (length (x ∷ rest)) temp),
        length-drop (length (x ∷ rest)) temp,
      ) in
      (
        put_block bm (nth bm.d.blocks ino i) full,
        rw (get_nth_blockid-Layout l i here) refl,
        put-Safe i full l here fl p,
      )

  put_inode-Guarded :
      {bm : BlockManager} {ino : Inode} {k : ℕ} (inum : ℕ) (image : Inode)
      → Layout bm ino k
      → inum < 1024
      → iblock inum block_num ≢ spot
      → Guarded Own spot spot_low old bm
      → Gives (Guarded Own spot spot_low old) (put_inode bm inum image)
  unfolding put_inode get_block read_block
  put_inode-Guarded {bm} inum image l small away g =
      let id = iblock inum block_num in
      let id_low : id < 1035 = omega arith in
      let before = bm.d.blocks id in
      (
        put_block bm id (encode image before),
        rw (l.formatted, lt→ltb id block_num (omega (arith, id_low))) refl,
        put-Guarded Own spot spot_low old bm id (encode image before) g (omega (arith, id_low))
            (length-encode image before ∙ l.disk.sized id)
            (λ o. omega (arith, own_low id o, id_low)) away,
      )

  -- The blocks are written.
  write_data-Safe :
      {bm : BlockManager} {ino : Inode} {k : ℕ} (buf temp : Bytes)
      → Layout bm ino k
      → length buf / 512 ≤ k
      → (0 < length buf % 512 → length buf / 512 < k)
      → length temp ≡ 512
      → AreBytes buf
      → Safe k (bm, ino)
      → Gives
          (λ r. Safe k (r, ino))
          (write_blocks bm ino 0 (length buf / 512) buf >>= λ bm2.
            write_rest bm2 ino (length buf / 512) (drop (length buf / 512 * 512) buf) temp)
  write_data-Safe {bm} {ino} {k} buf temp l h h' ts bs p =
      let n = length buf / 512 in
      let rest = drop (n * 512) buf in
      let short : length rest ≡ length buf % 512 = omega (arith, length-drop (n * 512) buf) in
      let (bm2, e, (w, c)) = write_blocks-Written n 0 buf l (omega arith) (omega arith) bs in
      let (_, e1, p1) = write_blocks-Safe n 0 buf l (omega arith) (omega arith) bs p in
      let p2 = given_answer (λ r. Safe k (r, ino)) (sym e1 ∙ e) p1 in
      let (r, e2, p3) =
        write_rest-Safe n rest temp w.layout (λ q. h' (omega (arith, short, length-pos rest q)))
          (omega (arith, short)) ts p2 in
      (r, rw e e2, p3)

  -- `write_inode` leaves the other file's blocks and its inode.
  pub write_inode-Guarded :
      {bm : BlockManager} {ino : Inode} (inum : ℕ) (buf temp : Bytes) (t : Times)
      → FileAt bm inum ino
      → length buf < maxfile * 512
      → HasRoom bm ino (length buf)
      → AreBytes buf
      → (length temp ≡ 512) × AreBytes temp
      → iblock inum block_num ≢ spot
      → Safe (blocks_for ino.size) (bm, ino)
      → Gives (Guarded Own spot spot_low old) (write_inode bm inum ino buf temp t)
  unfolding write_inode
  write_inode-Guarded {bm} {ino} inum buf temp t v len room bs ts away p =
      let b = blocks_for_bounds (length buf) len in
      let k = blocks_for (length buf) in
      let ((bm1, ino1), e, (l1, ty)) = resize-Layout (blocks_for ino.size) k v.layout b.1 room in
      let (_, e1, p1) = resize-Safe (blocks_for ino.size) k v.layout b.1 room p in
      let p2 = given_answer (Safe k) (sym e1 ∙ e) p1 in
      let (bm3, e3, p3) = write_data-Safe buf temp l1 b.0 b.2 ts.0 bs p2 in
      let (_, e4, d) = write_data buf temp l1 b.0 b.2 ts.0 bs ts.1 in
      let l3 = given_answer (λ r. Layout r ino1 k) (sym e4 ∙ e3) d.layout in
      let image = record ino1 {
        size = length buf;
        atime = t.atime;
        mtime = t.mtime;
        ctime = t.ctime;
      } in
      let (r, e5, g) =
        put_inode-Guarded inum image l3 (get_inode-found bm inum v.found) away p3.0 in
      let (bm2, q, q') = >>=-eq-some (write_blocks bm1 ino1 0 (length buf / 512) buf) _ e3 in
      (r, rw (e, q, q') e5, g)

-- The blocks of a file: those of its data, and that of its addresses.
abbrev pub Owns : BlockManager → Inode → ℕ → ℕ → Type 0
Owns bm ino k b = ((n : ℕ) × (n < k) × (nth bm.d.blocks ino n ≡ b)) ⊎ ((indirect ino ≡ b) × (b ≢ 0))

-- No block is in both files.
abbrev pub Disjoint : BlockManager → Inode → Inode → Type 0
Disjoint bm ino other =
    (b : ℕ) → Owns bm ino (blocks_for ino.size) b → Owns bm other (blocks_for other.size) b → ⊥

pub Owns-low :
    {bm : BlockManager} {ino : Inode} {k : ℕ}
    → Layout bm ino k
    → (b : ℕ) → Owns bm ino k b
    → 1035 ≤ b
Owns-low l b (inl (n, q, e)) = omega (arith, e, l.in_data n q)
Owns-low l b (inr (e, z)) = ground (arith, l.indirect_low, e, z)
