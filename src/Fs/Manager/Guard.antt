-- ===== src/Fs/Manager/Guard.antt =====
-- inode_manager.cc: blocks that belong to another file while a file is resized and written.
use cse_labs.Prelude.{
  ℕ, zero, suc, ◌+◌, ◌-◌, ◌<◌, ◌≤◌, ◌≡◌, ◌≢◌, refl, sym, subst, ap, ◌∙◌, inl, inr, some, arith,
  ◌==◌, ltb, if◌then◌else◌, Bytes, length, Bool-cases, ==_iff, lt→ltb, ltb→lt, given_answer,
  get_or-set_self,
}
use cse_labs.Fs.Words.{set_word, length-set_word}
use cse_labs.Fs.Inode.{Inode}
use cse_labs.Fs.Disk.{
  BlockManager, ndirect, maxfile, block_num, get_block, put_block, read_block, free_block, update,
}
use cse_labs.Fs.Disk.Alloc.{free_count}
use cse_labs.Fs.Manager.{
  get_nth_blockid, alloc_nth_block, need_indirect, set_indirect, alloc_blocks, free_blocks,
}
use cse_labs.Fs.Manager.Layout.{nth, indirect, Layout, write_block-blocks, get_nth_blockid-Layout}
use cse_labs.Fs.Manager.Extend.{
  taken, with_block, stored, nth-with_block, indirect-with_block, nth-with_indirect, nth-stored,
}
use cse_labs.Fs.Manager.Grow.{
  Gives, spare, taken-alloc, need_indirect-Indirect, alloc_nth_block-Grown,
}
use cse_labs.Fs.Manager.Data.{with_using, get_nth_blockid-with_using}

-- The blocks of the other file, and the block with its inode.
module _ (Own : ℕ → Type 0) (spot : ℕ) (spot_low : spot < 1035) (old : ℕ → Bytes) where
  pub record Guarded (bm : BlockManager) : Type 0 where
    pub kept : (b : ℕ) → Own b → bm.d.blocks b ≡ old b
    pub used : (b : ℕ) → Own b → bm.using_blocks b ≢ 0
    pub inode : bm.d.blocks spot ≡ old spot

  -- The blocks of a file are none of the other's.
  pub record Apart (bm : BlockManager) (ino : Inode) (k : ℕ) : Type 0 where
    pub direct : (n : ℕ) → n < k → Own (nth bm.d.blocks ino n) → ⊥
    pub addresses : Own (indirect ino) → ⊥

  update_other : (f : ℕ → Bytes) (id b : ℕ) (buf : Bytes) → id ≢ b → update f id buf b ≡ f b
  update_other f id b buf n = elim (Bool-cases (id == b)) [
    | inl e ↦ absurd (n ((==_iff id b).0 e))
    | inr e ↦ rw e refl
  ]

  pub put-Guarded :
      (bm : BlockManager) (id : ℕ) (buf : Bytes)
      → Guarded bm
      → id < 32768
      → length buf ≡ 512
      → (Own id → ⊥)
      → id ≢ spot
      → Guarded (put_block bm id buf)
  put-Guarded bm id buf g h l n m =
      let e = write_block-blocks bm.d id buf h l in
      record {
        kept = λ b o.
            ap (λ f. f b) e
            ∙ update_other bm.d.blocks id b buf (λ q. n (subst Own (sym q) o))
            ∙ g.kept b o;
        used = g.used;
        inode = ap (λ f. f spot) e ∙ update_other bm.d.blocks id spot buf m ∙ g.inode;
      }

  taken-Guarded : (bm : BlockManager) (b : ℕ) → Guarded bm → Guarded (taken bm b)
  taken-Guarded bm b g = record {
    kept = g.kept;
    used = λ c o. elim (Bool-cases (b == c)) [
      | inl e ↦ rw e (λ z. omega (arith, z))
      | inr e ↦ rw e (g.used c o)
    ];
    inode = g.inode;
  }

  direct-Apart :
      {bm : BlockManager} {ino : Inode} {k : ℕ}
      → Layout bm ino k
      → k < ndirect
      → 2 ≤ spare bm ino
      → Guarded bm
      → Apart bm ino k
      → Gives (λ r. Guarded r.0 × Apart r.0 r.1 (k + 1)) (alloc_nth_block bm ino k)
  unfolding alloc_nth_block
  direct-Apart {bm} {ino} {k} l h s g a =
      let (b, e, z, lo, hi, c) = taken-alloc bm l.formatted (ground arith) in
      (
        (taken bm b, with_block ino k b),
        rw (lt→ltb k ndirect h, e) refl,
        (
          taken-Guarded bm b g,
          record {
            direct = λ n q o. elim (Bool-cases (n == k)) [
              | inl t ↦
                  g.used b
                    (subst Own
                      (nth-with_block l b z lo hi h n
                        ∙ ap (λ x. if x then b else nth bm.d.blocks ino n) t)
                      o)
                    z
              | inr t ↦ a.direct n (ground (arith, t, q)) (
                  subst Own
                    (nth-with_block l b z lo hi h n
                      ∙ ap (λ x. if x then b else nth bm.d.blocks ino n) t)
                    o)
            ];
            addresses = λ o. a.addresses (subst Own (indirect-with_block l b z lo hi h) o);
          },
        ),
      )

  need_indirect-Apart :
      {bm : BlockManager} {ino : Inode} {k : ℕ}
      → Layout bm ino k
      → ndirect ≤ k
      → 2 ≤ spare bm ino
      → Guarded bm
      → Apart bm ino k
      → Guarded (need_indirect bm ino).0 × Apart (need_indirect bm ino).0 (need_indirect bm ino).1 k
  unfolding need_indirect
  need_indirect-Apart {bm} {ino} {k} l h s g a = elim (Bool-cases (indirect ino == 0)) [
    | inl p ↦
        let (b, e, z, lo, hi, c) = taken-alloc bm l.formatted (ground arith) in
        let at : ndirect ≡ k = ground (arith, l.indirect_needed) in
        let new : indirect (with_block ino ndirect b) ≡ b =
          get_or-set_self ino.blocks ndirect b 0 (omega (arith, l.full)) in
        rw (p, e)
          (
            taken-Guarded bm b g,
            record {
              direct = λ n q o.
                  a.direct n q
                    (subst Own (nth-with_indirect l b z lo hi n (omega (arith, at, q))) o);
              addresses = λ o. g.used b (subst Own new o) z;
            },
          )
    | inr p ↦ rw p (g, a)
  ]

  set_indirect-Apart :
      {bm : BlockManager} {ino : Inode} {k : ℕ}
      → Layout bm ino k
      → ndirect ≤ k
      → k < maxfile
      → indirect ino ≢ 0
      → 1 ≤ free_count bm
      → Guarded bm
      → Apart bm ino k
      → Gives (λ r. Guarded r.0 × Apart r.0 r.1 (k + 1)) (set_indirect bm ino (k - ndirect))
  unfolding set_indirect get_block read_block
  set_indirect-Apart {bm} {ino} {k} l h h' x s g a =
      let (b, e, z, lo, hi, c) = taken-alloc bm l.formatted s in
      let words = set_word (bm.d.blocks (indirect ino)) (k - ndirect) b in
      (
        (stored l b z lo hi, ino),
        rw (lt→ltb (indirect ino) block_num l.indirect_high, e) refl,
        (
          put-Guarded (taken bm b) (indirect ino) words (taken-Guarded bm b g) l.indirect_high
              (length-set_word _ (k - ndirect) b ∙ l.disk.sized (indirect ino)) a.addresses
              (λ q. ground (arith, q, l.indirect_low, x, spot_low)),
          record {
            direct = λ n q o. elim (Bool-cases (n == k)) [
              | inl t ↦
                  g.used b
                    (subst Own
                      (nth-stored l b z lo hi h h' x n
                        ∙ ap (λ y. if y then b else nth bm.d.blocks ino n) t)
                      o)
                    z
              | inr t ↦ a.direct n (ground (arith, t, q)) (
                  subst Own
                    (nth-stored l b z lo hi h h' x n
                      ∙ ap (λ y. if y then b else nth bm.d.blocks ino n) t)
                    o)
            ];
            addresses = a.addresses;
          },
        ),
      )

  alloc_nth_block-Apart :
      {bm : BlockManager} {ino : Inode} {k : ℕ}
      → Layout bm ino k
      → k < maxfile
      → 2 ≤ spare bm ino
      → Guarded bm
      → Apart bm ino k
      → Gives (λ r. Guarded r.0 × Apart r.0 r.1 (k + 1)) (alloc_nth_block bm ino k)
  unfolding alloc_nth_block
  alloc_nth_block-Apart {bm} {ino} {k} l h s g a = elim (Bool-cases (ltb k ndirect)) [
    | inl p ↦ direct-Apart l (ltb→lt k ndirect p) s g a
    | inr p ↦
        let far : ndirect ≤ k = ground (arith, p) in
        let i = need_indirect-Indirect l far s in
        let (g1, a1) = need_indirect-Apart l far s g a in
        let (r, e, q) = set_indirect-Apart i.layout far h i.present i.room g1 a1 in
        (r, rw (p, lt→ltb k maxfile h) e, q)
  ]

  pub alloc_blocks-Apart :
      (n : ℕ) {bm : BlockManager} {ino : Inode} (k : ℕ)
      → Layout bm ino k
      → k + n ≤ maxfile
      → n + 1 ≤ spare bm ino
      → Guarded bm
      → Apart bm ino k
      → Gives (λ r. Guarded r.0 × Apart r.0 r.1 (k + n)) (alloc_blocks bm ino k n)
  unfolding alloc_blocks
  alloc_blocks-Apart zero {bm} {ino} k l h s g a =
      ((bm, ino), refl, (g, subst (Apart bm ino) (omega arith) a))
  alloc_blocks-Apart (suc n) {bm} {ino} k l h s g a =
      let (r, e, w) = alloc_nth_block-Grown l (omega arith) (omega arith) in
      let (_, e1, p) = alloc_nth_block-Apart l (omega arith) (omega arith) g a in
      let (g1, a1) = given_answer (λ x. Guarded x.0 × Apart x.0 x.1 (k + 1)) (sym e1 ∙ e) p in
      let (r', e', (g2, a2)) =
        alloc_blocks-Apart n (k + 1) w.layout (omega arith) (omega (arith, w.left)) g1 a1 in
      (r', rw e e', (g2, subst (Apart r'.0 r'.1) (omega arith) a2))

  -- The blocks that are freed are the file's own.
  pub free_blocks-Guarded :
      {bm : BlockManager} {ino : Inode} {big : ℕ} (u : ℕ → ℕ) (n j : ℕ)
      → Layout bm ino big
      → j + n ≤ big
      → Apart bm ino big
      → Guarded (with_using bm u)
      → Gives (λ r. Guarded r × (r.d ≡ bm.d)) (free_blocks (with_using bm u) ino j n)
  unfolding free_blocks free_block
  free_blocks-Guarded {bm} u zero j l h a g = (with_using bm u, refl, (g, refl))
  free_blocks-Guarded {bm} {ino} u (suc n) j l h a g =
      let id = nth bm.d.blocks ino j in
      let at : get_nth_blockid (with_using bm u) ino j ≡ some id =
        get_nth_blockid-with_using bm u ino j ∙ get_nth_blockid-Layout l j (omega arith) in
      let freed : Guarded (with_using bm (update u id 0)) = record {
        kept = g.kept;
        used = λ c o. elim (Bool-cases (id == c)) [
          | inl e ↦ absurd (a.direct j (omega arith) (subst Own (sym ((==_iff id c).0 e)) o))
          | inr e ↦ rw e (g.used c o)
        ];
        inode = g.inode;
      } in
      rw at (free_blocks-Guarded (update u id 0) n (j + 1) l (omega arith) a freed)
