-- ===== src/Yfs/Buffers.antt =====
-- What yfs_client::setattr, read and write do with the content of a file.
pub mod Written
use cse_labs.Prelude.{
  ℕ, zero, suc, ◌+◌, ◌-◌, ◌<◌, ◌≤◌, ◌≡◌, refl, ap, sym, ◌∙◌, Option, none, some, List, [], ◌∷◌,
  ◌++◌, arith, ltb, leb, if◌then◌else◌, Bool-cases, inl, inr, Bytes, check, length, length-append,
  length-take, length-replicate, length-set, get_or, set, take, drop, replicate, min,
}

-- `std::string::resize`
unfoldable pub resize : Bytes → ℕ → Bytes
resize buf n = take n buf ++ replicate (n - length buf) 0

-- `n` rounds of `buf[j] = '\0'` from `j` on.
unfoldable fill_zero : Bytes → ℕ → ℕ → Bytes
fill_zero buf j zero = buf
fill_zero buf j (suc n) = fill_zero (set buf j 0) (j + 1) n

-- The loop `buf[i + off] = data[i]`.
unfoldable pub overwrite : Bytes → ℕ → Bytes → Bytes
overwrite buf off [] = buf
overwrite buf off (x ∷ xs) = overwrite (set buf off x) (off + 1) xs

-- The content that `read` returns.
unfoldable pub read_content : Bytes → ℕ → ℕ → Bytes
read_content buf size off =
    if ltb (length buf) off
    then []
    else if ltb (length buf) (off + size)
    then drop off buf
    else take size (drop off buf)

unfoldable pub grow : Bytes → ℕ → ℕ → Bytes
unfolding fill_zero resize
grow buf size off =
    if ltb (length buf) (off + size)
    then (if ltb (length buf) off
        then fill_zero (resize buf (off + size)) (length buf) (off - length buf)
        else resize buf (off + size))
    else buf

-- The content that `write` puts. The loops count in an `int`; more rounds than it holds are not
-- defined in C++.
unfoldable pub write_content : Bytes → ℕ → Bytes → Option Bytes
unfolding overwrite grow
write_content buf off chunk = check (leb (length chunk) 0x7fffffff) (
    check (if ltb (length buf) off then leb off 0x7fffffff else leb 0 0)
      (some (overwrite (grow buf (length chunk) off) off chunk)))

-- Byte `i` of a content, 0 past its end.
abbrev pub byte : Bytes → ℕ → ℕ
byte buf i = get_or buf i 0

byte_nil : (i : ℕ) → byte [] i ≡ 0
byte_nil i = refl

byte-replicate : (n i : ℕ) → byte (replicate n 0) i ≡ 0
byte-replicate zero i = refl
byte-replicate (suc n) zero = refl
byte-replicate (suc n) (suc i) = byte-replicate n i

pub byte-take : (n i : ℕ) (buf : Bytes) → byte (take n buf) i ≡ (if ltb i n then byte buf i else 0)
byte-take zero i buf = ground arith
byte-take (suc n) i [] = ground arith
byte-take (suc n) zero (x ∷ xs) = ground arith
byte-take (suc n) (suc i) (x ∷ xs) = ground (arith, byte-take n i xs)

byte-append :
    (xs ys : Bytes) (i : ℕ)
    → byte (xs ++ ys) i ≡ (if ltb i (length xs) then byte xs i else byte ys (i - length xs))
byte-append [] ys i = ground arith
byte-append (x ∷ xs) ys zero = ground arith
byte-append (x ∷ xs) ys (suc i) = ground (arith, byte-append xs ys i)

byte_past : (buf : Bytes) (i : ℕ) → length buf ≤ i → byte buf i ≡ 0
byte_past [] i h = refl
byte_past (x ∷ xs) zero h = absurd (omega arith)
byte_past (x ∷ xs) (suc i) h = byte_past xs i (omega arith)

pub byte-drop : (n i : ℕ) (buf : Bytes) → byte (drop n buf) i ≡ byte buf (n + i)
byte-drop zero i buf = ap (byte buf) (omega arith)
byte-drop (suc n) i [] = refl
byte-drop (suc n) i (x ∷ xs) =
    let e : suc n + i ≡ suc (n + i) = omega arith in byte-drop n i xs ∙ sym (ap (byte (x ∷ xs)) e)

length-resize : (buf : Bytes) (n : ℕ) → length (resize buf n) ≡ n
unfolding resize
length-resize buf n = omega (
  arith,
  length-append (take n buf) (replicate (n - length buf) 0),
  length-take n buf,
  length-replicate {A = ℕ} (n - length buf) 0,
)

-- `resize` keeps the bytes below the new size and makes the others 0.
byte-resize : (buf : Bytes) (n i : ℕ) → byte (resize buf n) i ≡ (if ltb i n then byte buf i else 0)
unfolding resize
byte-resize buf n i = ground (
  arith,
  byte-append (take n buf) (replicate (n - length buf) 0) i,
  byte-take n i buf,
  byte-replicate (n - length buf) (i - length (take n buf)),
  length-take n buf,
  byte_past buf i,
)

byte-set :
    (buf : Bytes) (k v i : ℕ)
    → byte (set buf k v) i ≡ (
        if ltb k (length buf)
        then (if ltb k i then byte buf i else if ltb i k then byte buf i else v)
        else byte buf i)
byte-set [] k v i = ground arith
byte-set (x ∷ xs) zero v zero = ground arith
byte-set (x ∷ xs) zero v (suc i) = ground arith
byte-set (x ∷ xs) (suc k) v zero = ground arith
byte-set (x ∷ xs) (suc k) v (suc i) = ground (arith, byte-set xs k v i)

length-fill_zero : (buf : Bytes) (j n : ℕ) → length (fill_zero buf j n) ≡ length buf
unfolding fill_zero
length-fill_zero buf j zero = refl
length-fill_zero buf j (suc n) = length-fill_zero (set buf j 0) (j + 1) n ∙ length-set buf j 0

byte-fill_zero :
    (buf : Bytes) (j n i : ℕ)
    → byte (fill_zero buf j n) i
      ≡ (if ltb i j then byte buf i else if ltb i (j + n) then 0 else byte buf i)
unfolding fill_zero
byte-fill_zero buf j zero i = ground arith
byte-fill_zero buf j (suc n) i =
    ground (arith, byte-fill_zero (set buf j 0) (j + 1) n i, byte-set buf j 0 i, byte_past buf i)

pub length-overwrite :
    (buf : Bytes) (off : ℕ) (chunk : Bytes) → length (overwrite buf off chunk) ≡ length buf
unfolding overwrite
length-overwrite buf off [] = refl
length-overwrite buf off (x ∷ xs) =
    length-overwrite (set buf off x) (off + 1) xs ∙ length-set buf off x

pub byte-overwrite :
    (buf : Bytes) (off : ℕ) (chunk : Bytes) (i : ℕ)
    → off + length chunk ≤ length buf
    → byte (overwrite buf off chunk) i ≡ (
        if ltb i off
        then byte buf i
        else if ltb i (off + length chunk)
        then byte chunk (i - off)
        else byte buf i)
unfolding overwrite
byte-overwrite buf off [] i h = ground arith
byte-overwrite buf off (x ∷ xs) i h =
    let rest =
      byte-overwrite (set buf off x) (off + 1) xs i (omega (arith, length-set buf off x)) in
    let e = byte-set buf off x i in
    elim (Bool-cases (ltb off i)) [
      | inl p ↦
          let k : i - off ≡ suc (i - (off + 1)) = ground arith in
          ground (arith, rest, e, ap (byte (x ∷ xs)) k)
      | inr p ↦ ground (arith, rest, e)
    ]

pub length_grow_lem :
    (buf : Bytes) (size off : ℕ)
    → length (grow buf size off)
      ≡ (if ltb (length buf) (off + size) then off + size else length buf)
unfolding grow
length_grow_lem buf size off = ground (
  arith,
  length-fill_zero (resize buf (off + size)) (length buf) (off - length buf),
  length-resize buf (off + size),
)

pub length-grow : (buf : Bytes) (size off : ℕ) → off + size ≤ length (grow buf size off)
length-grow buf size off = ground (arith, length_grow_lem buf size off)

pub byte-grow : (buf : Bytes) (size off i : ℕ) → byte (grow buf size off) i ≡ byte buf i
unfolding grow
byte-grow buf size off i = ground (
  arith,
  byte-fill_zero (resize buf (off + size)) (length buf) (off - length buf) i,
  byte-resize buf (off + size) i,
  byte_past buf i,
)
