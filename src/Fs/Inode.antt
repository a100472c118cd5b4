-- ===== src/Fs/Inode.antt =====
-- `struct inode` and its place in a block: the 16 bits of the type, four words and the block
-- addresses, as a little-endian machine with aligned words lays them out.
use cse_labs.Prelude.{
  ℕ, zero, suc, ◌+◌, ◌*◌, ◌/◌, ◌%◌, ◌^◌, ◌<◌, ◌≤◌, ◌≡◌, refl, subst, ◌∙◌, List, [], ◌∷◌, arith,
  Bytes, length, All,
}
use cse_labs.Fs.Words.{
  word_at, set_word, words_from, set_words, length-set_word, length-set_words, word_at-set_word,
  word_at-set_words_below, words_from-set_words,
}
use cse_labs.Fs.Disk.{ndirect}

pub record Inode : Type 0 where
  pub type : ℕ
  pub size : ℕ
  pub atime : ℕ
  pub mtime : ℕ
  pub ctime : ℕ
  pub blocks : List ℕ

-- `*ino_disk` for an `ino_disk` that points to the start of the buffer.
unfoldable pub decode : Bytes → Inode
decode buf = record {
  type = word_at buf 0 % 0x10000;
  size = word_at buf 1;
  atime = word_at buf 2;
  mtime = word_at buf 3;
  ctime = word_at buf 4;
  blocks = words_from buf 5 (ndirect + 1);
}

-- The words behind the type, and the first word with its padding kept.
abbrev fields : Inode → List ℕ
fields ino = ino.size ∷ ino.atime ∷ ino.mtime ∷ ino.ctime ∷ ino.blocks

abbrev typed_word : Inode → Bytes → ℕ
typed_word ino buf = ino.type % 0x10000 + 0x10000 * (word_at buf 0 / 0x10000)

-- `*ino_disk = *ino`; the two bytes of padding stay.
unfoldable pub encode : Inode → Bytes → Bytes
encode ino buf = set_words (set_word buf 0 (typed_word ino buf)) 1 (fields ino)

-- Every field of the inode fits its type in C.
pub record IsInode (ino : Inode) : Type 0 where
  pub type_fits : ino.type < 2 ^ 16
  pub size_fits : ino.size < 2 ^ 32
  pub atime_fits : ino.atime < 2 ^ 32
  pub mtime_fits : ino.mtime < 2 ^ 32
  pub ctime_fits : ino.ctime < 2 ^ 32
  pub blocks_fit : All (λ b. b < 2 ^ 32) ino.blocks
  pub full : length ino.blocks ≡ ndirect + 1

-- Every byte of a buffer fits a byte.
abbrev pub AreBytes : Bytes → Type 0
AreBytes = All (λ b. b < 256)

pub set_word-AreBytes : (buf : Bytes) (k v : ℕ) → AreBytes buf → AreBytes (set_word buf k v)
unfolding set_word
set_word-AreBytes (a ∷ b ∷ c ∷ d ∷ r) zero v h =
    (omega arith, (omega arith, (omega arith, (omega arith, h.1.1.1.1))))
set_word-AreBytes (a ∷ b ∷ c ∷ d ∷ r) (suc k) v h =
    (h.0, (h.1.0, (h.1.1.0, (h.1.1.1.0, set_word-AreBytes r k v h.1.1.1.1))))
set_word-AreBytes [] k v h = h
set_word-AreBytes (a ∷ []) k v h = h
set_word-AreBytes (a ∷ b ∷ []) k v h = h
set_word-AreBytes (a ∷ b ∷ c ∷ []) k v h = h

pub set_words-AreBytes :
    (buf : Bytes) (k : ℕ) (ws : List ℕ) → AreBytes buf → AreBytes (set_words buf k ws)
unfolding set_words
set_words-AreBytes buf k [] h = h
set_words-AreBytes buf k (w ∷ ws) h =
    set_words-AreBytes (set_word buf k w) (k + 1) ws (set_word-AreBytes buf k w h)

pub encode-AreBytes : (ino : Inode) (buf : Bytes) → AreBytes buf → AreBytes (encode ino buf)
unfolding encode
encode-AreBytes ino buf h =
    set_words-AreBytes (set_word buf 0 (typed_word ino buf)) 1 (fields ino)
      (set_word-AreBytes buf 0 (typed_word ino buf) h)

word_at-lt : (buf : Bytes) (k : ℕ) → AreBytes buf → word_at buf k < 2 ^ 32
unfolding word_at
word_at-lt (a ∷ b ∷ c ∷ d ∷ r) zero h = omega arith
word_at-lt (a ∷ b ∷ c ∷ d ∷ r) (suc k) h = word_at-lt r k h.1.1.1.1
word_at-lt [] k h = omega arith
word_at-lt (a ∷ []) k h = omega arith
word_at-lt (a ∷ b ∷ []) k h = omega arith
word_at-lt (a ∷ b ∷ c ∷ []) k h = omega arith

length-words_from : (buf : Bytes) (k n : ℕ) → length (words_from buf k n) ≡ n
unfolding words_from
length-words_from buf k zero = refl
length-words_from buf k (suc n) = omega (arith, length-words_from buf (k + 1) n)

words_from-fit : (buf : Bytes) (k n : ℕ) → AreBytes buf → All (λ w. w < 2 ^ 32) (words_from buf k n)
unfolding words_from
words_from-fit buf k zero h = tt
words_from-fit buf k (suc n) h = (word_at-lt buf k h, words_from-fit buf (k + 1) n h)

-- Whatever bytes a block holds, the inode that is read from it fits its types.
pub decode-IsInode : (buf : Bytes) → AreBytes buf → IsInode (decode buf)
unfolding decode
decode-IsInode buf h = record {
  type_fits = omega arith;
  size_fits = word_at-lt buf 1 h;
  atime_fits = word_at-lt buf 2 h;
  mtime_fits = word_at-lt buf 3 h;
  ctime_fits = word_at-lt buf 4 h;
  blocks_fit = words_from-fit buf 5 (ndirect + 1) h;
  full = length-words_from buf 5 (ndirect + 1);
}

pub length-encode : (ino : Inode) (buf : Bytes) → length (encode ino buf) ≡ length buf
unfolding encode
length-encode ino buf =
    length-set_words (set_word buf 0 (typed_word ino buf)) 1 (fields ino)
    ∙ length-set_word buf 0 (typed_word ino buf)

fields-words_from :
    (buf : Bytes) (n s a m c : ℕ) (bs : List ℕ)
    → words_from buf 1 (suc (suc (suc (suc n)))) ≡ s ∷ a ∷ m ∷ c ∷ bs
    → (word_at buf 1 ≡ s)
      × (word_at buf 2 ≡ a)
      × (word_at buf 3 ≡ m)
      × (word_at buf 4 ≡ c)
      × (words_from buf 5 n ≡ bs)
unfolding words_from
fields-words_from buf n s a m c bs e = ground arith

-- An inode that is written into a block is read back from it.
pub decode-encode :
    (ino : Inode) (buf : Bytes)
    → IsInode ino
    → AreBytes buf
    → length buf ≡ 512
    → decode (encode ino buf) ≡ ino
unfolding decode encode
decode-encode ino buf v h l =
    let w0 = typed_word ino buf in
    let b1 = set_word buf 0 w0 in
    let small : w0 < 2 ^ 32 = omega (arith, word_at-lt buf 0 h, v.type_fits) in
    let fits : 4 * (1 + length (fields ino)) ≤ length b1 =
      omega (arith, length-set_word buf 0 w0, v.full) in
    let all : All (λ w. w < 2 ^ 32) (fields ino) =
      (v.size_fits, (v.atime_fits, (v.mtime_fits, (v.ctime_fits, v.blocks_fit)))) in
    let e = words_from-set_words b1 1 (fields ino) fits all in
    let b2 = set_words b1 1 (fields ino) in
    let (s, a, m, c, bs) =
      fields-words_from b2 (length ino.blocks) ino.size ino.atime ino.mtime ino.ctime ino.blocks
        e in
    let first : word_at b2 0 ≡ w0 =
      word_at-set_words_below b1 1 0 (fields ino) fits all (omega arith)
      ∙ (ground (arith, word_at-set_word buf 0 0 w0 (omega arith) small)) in
    let blocks : words_from b2 5 (ndirect + 1) ≡ ino.blocks =
      subst (λ n. words_from b2 5 n ≡ ino.blocks) v.full bs in
    let type : word_at b2 0 % 0x10000 ≡ ino.type = omega (arith, first, v.type_fits) in
    λ i. record {
      type = type i;
      size = s i;
      atime = a i;
      mtime = m i;
      ctime = c i;
      blocks = blocks i;
    }
