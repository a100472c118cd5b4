-- ===== src/Fs/Manager/Extend.antt =====
-- One more block in the layout of a file: a direct one, the block of addresses, a far one.
use cse_labs.Prelude.{
  ℕ, ◌+◌, ◌-◌, ◌^◌, ◌<◌, ◌≤◌, ◌≡◌, ◌∙◌, ◌≢◌, inl, inr, arith, ◌==◌, if◌then◌else◌, set, All-set,
  length-set, get_or-set_self, get_or-set_ne, Bool-cases,
}
use cse_labs.Fs.Words.{set_word, word_at-set_word, length-set_word}
use cse_labs.Fs.Inode.{Inode, set_word-AreBytes}
use cse_labs.Fs.Disk.{BlockManager, ndirect, maxfile, put_block, update}
use cse_labs.Fs.Manager.Layout.{indirect, nth, Layout, write_block-blocks, update-IsDisk}

abbrev pub taken : BlockManager → ℕ → BlockManager
taken bm b = record bm { using_blocks = update bm.using_blocks b 1 }

abbrev pub with_block : Inode → ℕ → ℕ → Inode
with_block ino n b = record ino { blocks = set ino.blocks n b }

module _ {bm : BlockManager} {ino : Inode} {k : ℕ} (l : Layout bm ino k) (b : ℕ)
    (was_free : bm.using_blocks b ≡ 0) (low : 1035 ≤ b) (high : b < 32768) where
  pub indirect-with_block : k < ndirect → indirect (with_block ino k b) ≡ indirect ino
  indirect-with_block small = get_or-set_ne ino.blocks k ndirect b 0 (λ e. omega arith)

  pub nth-with_block :
      k < ndirect
      → (n : ℕ)
      → nth bm.d.blocks (with_block ino k b) n ≡ (if n == k then b else nth bm.d.blocks ino n)
  unfolding nth
  nth-with_block small n = elim (Bool-cases (n == k)) [
    | inl p ↦ ground (arith, get_or-set_self ino.blocks k b 0 (omega (arith, l.full)))
    | inr p ↦ ground (arith, indirect-with_block small, get_or-set_ne ino.blocks k n b 0)
  ]

  -- A direct block.
  pub Layout-direct : k < ndirect → Layout (taken bm b) (with_block ino k b) (k + 1)
  Layout-direct small = record {
    formatted = l.formatted;
    disk = l.disk;
    full = length-set ino.blocks k b ∙ l.full;
    fit = All-set (λ b. b < 2 ^ 32) ino.blocks k b (omega arith) l.fit;
    short = omega arith;
    in_data = λ n h. ground (arith, nth-with_block small n, l.in_data n);
    in_use = λ n h. ground (arith, nth-with_block small n, l.in_use n);
    distinct = λ m n h h'. ground (
      arith,
      nth-with_block small m,
      nth-with_block small n,
      l.in_use m,
      l.in_use n,
      l.distinct m n,
    );
    indirect_low = rw (indirect-with_block small) l.indirect_low;
    indirect_high = rw (indirect-with_block small) l.indirect_high;
    indirect_use = ground (arith, indirect-with_block small, l.indirect_use);
    indirect_apart = λ z n h.
        let z' : indirect ino ≢ 0 = λ e. z (indirect-with_block small ∙ e) in
        ground (
          arith,
          indirect-with_block small,
          nth-with_block small n,
          l.indirect_use z',
          l.indirect_apart z' n,
        );
    indirect_needed = λ h. absurd (omega arith);
  }

  pub nth-with_indirect :
      (n : ℕ) → n < ndirect → nth bm.d.blocks (with_block ino ndirect b) n ≡ nth bm.d.blocks ino n
  unfolding nth
  nth-with_indirect n h = ground (arith, get_or-set_ne ino.blocks ndirect n b 0 (λ e. omega arith))

  -- The block of addresses, when the file has none.
  pub Layout-indirect : ndirect ≡ k → Layout (taken bm b) (with_block ino ndirect b) k
  Layout-indirect e =
      let new : indirect (with_block ino ndirect b) ≡ b =
        get_or-set_self ino.blocks ndirect b 0 (omega (arith, l.full)) in
      record {
        formatted = l.formatted;
        disk = l.disk;
        full = length-set ino.blocks ndirect b ∙ l.full;
        fit = All-set (λ b. b < 2 ^ 32) ino.blocks ndirect b (omega arith) l.fit;
        short = l.short;
        in_data = λ n h. ground (arith, nth-with_indirect n, l.in_data n);
        in_use = λ n h. ground (arith, nth-with_indirect n, l.in_use n);
        distinct =
            λ m n h h'. ground (arith, nth-with_indirect m, nth-with_indirect n, l.distinct m n);
        indirect_low = inr (omega (arith, new));
        indirect_high = omega (arith, new);
        indirect_use = λ z. ground (arith, new);
        indirect_apart = λ z n h. ground (arith, new, nth-with_indirect n, l.in_use n);
        indirect_needed = λ h. omega (arith, new);
      }

  abbrev pub stored : BlockManager
  stored =
      put_block (taken bm b) (indirect ino) (set_word (bm.d.blocks (indirect ino)) (k - ndirect) b)

  module _ (h : ndirect ≤ k) (h' : k < maxfile) (x : indirect ino ≢ 0) where
    blocks-stored :
        stored.d.blocks
        ≡ update bm.d.blocks (indirect ino) (set_word (bm.d.blocks (indirect ino)) (k - ndirect) b)
    blocks-stored =
        write_block-blocks bm.d (indirect ino) _ l.indirect_high
          (length-set_word _ (k - ndirect) b ∙ l.disk.sized (indirect ino))

    pub nth-stored :
        (n : ℕ) → nth stored.d.blocks ino n ≡ (if n == k then b else nth bm.d.blocks ino n)
    unfolding nth
    nth-stored n = rw blocks-stored (
        ground (
          arith,
          word_at-set_word (bm.d.blocks (indirect ino)) (k - ndirect) (n - ndirect) b
              (omega (arith, l.disk.sized (indirect ino))) (omega arith),
        ))

    -- A block whose address is stored in the block of addresses.
    pub Layout-far : Layout stored ino (k + 1)
    Layout-far = record {
      formatted = l.formatted;
      disk = rw blocks-stored (
          update-IsDisk bm.d.blocks (indirect ino) _ l.disk
            (length-set_word _ (k - ndirect) b ∙ l.disk.sized (indirect ino))
            (set_word-AreBytes _ (k - ndirect) b (l.disk.bytes (indirect ino))));
      full = l.full;
      fit = l.fit;
      short = omega arith;
      in_data = λ n q. ground (arith, nth-stored n, l.in_data n);
      in_use = λ n q. ground (arith, nth-stored n, l.in_use n);
      distinct = λ m n p q.
          ground (arith, nth-stored m, nth-stored n, l.in_use m, l.in_use n, l.distinct m n);
      indirect_low = l.indirect_low;
      indirect_high = l.indirect_high;
      indirect_use = λ z. ground (arith, l.indirect_use z);
      indirect_apart =
          λ z n q. ground (arith, nth-stored n, l.indirect_use z, l.indirect_apart z n);
      indirect_needed = λ q. x;
    }
