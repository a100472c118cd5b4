-- ===== src/Fs/Words.antt =====
-- A buffer read and written as an array of `uint32_t`, low byte first. Accesses past the end read 0
-- and write nothing.
use cse_labs.Prelude.{
  ℕ, zero, suc, ◌+◌, ◌*◌, ◌/◌, ◌%◌, ◌^◌, ◌<◌, ◌≤◌, ◌≡◌, refl, ◌∙◌, List, [], ◌∷◌, arith, ◌==◌,
  if◌then◌else◌, Bytes, length, All,
}

-- `((uint32_t *)buf)[k]`
unfoldable pub word_at : Bytes → ℕ → ℕ
word_at (a ∷ b ∷ c ∷ d ∷ r) zero = a + 0x100 * b + 0x10000 * c + 0x1000000 * d
word_at (a ∷ b ∷ c ∷ d ∷ r) (suc k) = word_at r k
word_at _ _ = 0

-- `((uint32_t *)buf)[k] = v`
unfoldable pub set_word : Bytes → ℕ → ℕ → Bytes
set_word (a ∷ b ∷ c ∷ d ∷ r) zero v =
    (v % 256) ∷ (v / 0x100 % 256) ∷ (v / 0x10000 % 256) ∷ (v / 0x1000000 % 256) ∷ r
set_word (a ∷ b ∷ c ∷ d ∷ r) (suc k) v = a ∷ b ∷ c ∷ d ∷ set_word r k v
set_word buf _ _ = buf

-- `n` words from the index `k` on.
unfoldable pub words_from : Bytes → ℕ → ℕ → List ℕ
words_from buf k zero = []
words_from buf k (suc n) = word_at buf k ∷ words_from buf (k + 1) n

unfoldable pub set_words : Bytes → ℕ → List ℕ → Bytes
set_words buf k [] = buf
set_words buf k (w ∷ ws) = set_words (set_word buf k w) (k + 1) ws

pub length-set_word : (buf : Bytes) (k v : ℕ) → length (set_word buf k v) ≡ length buf
unfolding set_word
length-set_word (a ∷ b ∷ c ∷ d ∷ r) zero v = refl
length-set_word (a ∷ b ∷ c ∷ d ∷ r) (suc k) v = omega (arith, length-set_word r k v)
length-set_word [] k v = refl
length-set_word (a ∷ []) k v = refl
length-set_word (a ∷ b ∷ []) k v = refl
length-set_word (a ∷ b ∷ c ∷ []) k v = refl

pub word_at-set_word :
    (buf : Bytes) (k j v : ℕ)
    → 4 * k + 4 ≤ length buf
    → v < 2 ^ 32
    → word_at (set_word buf k v) j ≡ (if k == j then v else word_at buf j)
unfolding set_word word_at
word_at-set_word (a ∷ b ∷ c ∷ d ∷ r) zero zero v f h = omega arith
word_at-set_word (a ∷ b ∷ c ∷ d ∷ r) zero (suc j) v f h = ground arith
word_at-set_word (a ∷ b ∷ c ∷ d ∷ r) (suc k) zero v f h = ground arith
word_at-set_word (a ∷ b ∷ c ∷ d ∷ r) (suc k) (suc j) v f h =
    ground (arith, word_at-set_word r k j v (omega arith) h)
word_at-set_word [] k j v f h = absurd (omega arith)
word_at-set_word (a ∷ []) k j v f h = absurd (omega arith)
word_at-set_word (a ∷ b ∷ []) k j v f h = absurd (omega arith)
word_at-set_word (a ∷ b ∷ c ∷ []) k j v f h = absurd (omega arith)

pub length-set_words :
    (buf : Bytes) (k : ℕ) (ws : List ℕ) → length (set_words buf k ws) ≡ length buf
unfolding set_words
length-set_words buf k [] = refl
length-set_words buf k (w ∷ ws) =
    omega (arith, length-set_words (set_word buf k w) (k + 1) ws, length-set_word buf k w)

-- Words that are written stay below the first one that is written later.
pub word_at-set_words_below :
    (buf : Bytes) (k j : ℕ) (ws : List ℕ)
    → 4 * (k + length ws) ≤ length buf
    → All (λ w. w < 2 ^ 32) ws
    → j < k
    → word_at (set_words buf k ws) j ≡ word_at buf j
unfolding set_words
word_at-set_words_below buf k j [] f h l = refl
word_at-set_words_below buf k j (w ∷ ws) f h l =
    word_at-set_words_below (set_word buf k w) (k + 1) j ws (omega (arith, length-set_word buf k w))
      h.1 (omega arith)
    ∙ (ground (arith, word_at-set_word buf k j w (omega arith) h.0))

-- The words that were written are read back.
pub words_from-set_words :
    (buf : Bytes) (k : ℕ) (ws : List ℕ)
    → 4 * (k + length ws) ≤ length buf
    → All (λ w. w < 2 ^ 32) ws
    → words_from (set_words buf k ws) k (length ws) ≡ ws
unfolding words_from set_words
words_from-set_words buf k [] f h = refl
words_from-set_words buf k (w ∷ ws) f h =
    let fits : 4 * (k + 1 + length ws) ≤ length (set_word buf k w) =
      omega (arith, length-set_word buf k w) in
    let first : word_at (set_words (set_word buf k w) (k + 1) ws) k ≡ w =
      word_at-set_words_below (set_word buf k w) (k + 1) k ws fits h.1 (omega arith)
      ∙ (ground (arith, word_at-set_word buf k k w (omega arith) h.0)) in
    rw (first, words_from-set_words (set_word buf k w) (k + 1) ws fits h.1)
