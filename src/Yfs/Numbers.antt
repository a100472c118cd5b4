-- ===== src/Yfs/Numbers.antt =====
-- `yfs_client::filename` and `n2i`: the number of an inode printed in decimal and read back, as the
-- string streams of C++ do for `unsigned long long`.
use cse_labs.Prelude.{
  ℕ, zero, suc, ◌+◌, ◌-◌, ◌*◌, ◌/◌, ◌%◌, ◌^◌, ◌<◌, ◌≤◌, ◌≡◌, refl, ap, ◌∙◌, Bool, ◌&&◌, ◌||◌, [],
  ◌∷◌, arith, ltb, leb, ◌==◌, if◌then◌else◌, Bool-cases, inl, inr, Bytes, All,
}

-- The digits of `n` before `acc`, at most `fuel` of them.
unfoldable digits_from : ℕ → ℕ → Bytes → Bytes
digits_from zero n acc = acc
digits_from (suc fuel) n acc =
    let rest = digits_from fuel (n / 10) ((48 + n % 10) ∷ acc) in
    if ltb n 10 then (48 + n) ∷ acc else rest

-- `ost << inum`: 64 bits have at most 20 digits.
unfoldable pub filename : ℕ → Bytes
unfolding digits_from
filename inum = digits_from 20 inum []

unfoldable pub is_digit : ℕ → Bool
is_digit c = leb 48 c && leb c 57

unfoldable pub is_space : ℕ → Bool
is_space c = c == 32 || (leb 9 c && leb c 13)

-- The digits at the front, behind a number that is read already.
unfoldable pub parse_digits : ℕ → Bytes → ℕ
parse_digits n [] = n
parse_digits n (c ∷ cs) =
    let rest = parse_digits (n * 10 + (c - 48)) cs in if is_digit c then rest else n

-- A number that does not fit 64 bits reads as the largest one.
unfoldable saturate : ℕ → ℕ
saturate n = if ltb n (2 ^ 64) then n else 2 ^ 64 - 1

-- The sign; a negative number wraps around.
unfoldable parse_signed : Bytes → ℕ
parse_signed [] = 0
parse_signed (c ∷ cs) =
    if c == 45
    then (if ltb (parse_digits 0 cs) (2 ^ 64)
        then (2 ^ 64 - parse_digits 0 cs) % 2 ^ 64
        else 2 ^ 64 - 1)
    else if c == 43
    then saturate (parse_digits 0 cs)
    else saturate (parse_digits 0 (c ∷ cs))

unfoldable skip_space : Bytes → Bytes
skip_space [] = []
skip_space (c ∷ cs) = let rest = skip_space cs in if is_space c then rest else c ∷ cs

-- `ist >> finum`, which is 0 when there is no number.
unfoldable pub n2i : Bytes → ℕ
unfolding parse_signed saturate skip_space
n2i n = parse_signed (skip_space n)

-- What is an ASCII digit.
abbrev pub IsDigit : ℕ → Type 0
IsDigit c = (48 ≤ c) × (c ≤ 57)

parse_digits-digits_from :
    (fuel n : ℕ) (acc : Bytes)
    → 0 < fuel
    → n < 10 ^ fuel
    → parse_digits 0 (digits_from fuel n acc) ≡ parse_digits n acc
unfolding digits_from parse_digits is_digit
parse_digits-digits_from zero n acc p h = absurd (omega arith)
parse_digits-digits_from (suc zero) n acc p h = ground arith
parse_digits-digits_from (suc (suc fuel)) n acc p h =
    let next : n / 10 < 10 ^ suc fuel = omega arith in
    let rest =
      parse_digits-digits_from (suc fuel) (n / 10) ((48 + n % 10) ∷ acc) (omega arith) next in
    ground (arith, rest)

digits_from-IsDigit :
    (fuel n : ℕ) (acc : Bytes) → All IsDigit acc → All IsDigit (digits_from fuel n acc)
unfolding digits_from
digits_from-IsDigit zero n acc h = h
digits_from-IsDigit (suc fuel) n acc h =
    let rest =
      digits_from-IsDigit fuel (n / 10) ((48 + n % 10) ∷ acc) ((omega arith, omega arith), h) in
    elim (Bool-cases (ltb n 10)) [
      | inl p ↦ rw p ((omega arith, ground arith), h)
      | inr p ↦ rw p rest
    ]

-- A printed number is digits only.
pub filename-IsDigit : (n : ℕ) → All IsDigit (filename n)
unfolding filename
filename-IsDigit n = digits_from-IsDigit 20 n [] tt

n2i_digits : (s : Bytes) → All IsDigit s → n2i s ≡ saturate (parse_digits 0 s)
unfolding n2i parse_signed skip_space is_space saturate parse_digits
n2i_digits [] h = refl
n2i_digits (c ∷ cs) h = ground (arith, h.0)

saturate_small : (n : ℕ) → n < 2 ^ 64 → saturate n ≡ n
unfolding saturate
saturate_small n h = ground arith

-- The number of an inode that is printed into a directory is read back from it.
pub n2i-filename : (n : ℕ) → n < 2 ^ 64 → n2i (filename n) ≡ n
unfolding filename parse_digits
n2i-filename n h =
    let e = parse_digits-digits_from 20 n [] (omega arith) (omega arith) in
    n2i_digits (filename n) (filename-IsDigit n) ∙ ap saturate e ∙ saturate_small n h
