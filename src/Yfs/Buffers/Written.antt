-- ===== src/Yfs/Buffers/Written.antt =====
-- The content after a write, byte by byte, and read back.
use cse_labs.Prelude.{
  ℕ, suc, ◌+◌, ◌-◌, ◌<◌, ◌≤◌, ◌≡◌, refl, ap, ◌∙◌, some, [], ◌∷◌, arith, ltb, if◌then◌else◌, Bytes,
  length, length-take, length-drop, take, drop,
}
use cse_labs.Yfs.Buffers.{
  byte, grow, overwrite, write_content, read_content, byte-overwrite, length-overwrite, length-grow,
  length_grow_lem, byte-grow, byte-take, byte-drop,
}

bytes_ext :
    (xs ys : Bytes)
    → length xs ≡ length ys
    → ((i : ℕ) → i < length xs → byte xs i ≡ byte ys i)
    → xs ≡ ys
bytes_ext [] [] l h = refl
bytes_ext [] (y ∷ ys) l h = absurd (omega arith)
bytes_ext (x ∷ xs) [] l h = absurd (omega arith)
bytes_ext (x ∷ xs) (y ∷ ys) l h =
    let head : x ≡ y = h 0 (omega arith) in
    let tail = bytes_ext xs ys (omega arith) (λ i p. h (suc i) (omega arith)) in
    λ i. head i ∷ tail i

-- The content `r` after `chunk` was written to `buf` at `off`.
pub record Written (buf : Bytes) (off : ℕ) (chunk r : Bytes) : Type 0 where
  pub size :
      length r ≡ (if ltb (length buf) (off + length chunk) then off + length chunk else length buf)
  pub inside : (i : ℕ) → i < length chunk → byte r (off + i) ≡ byte chunk i
  pub below : (i : ℕ) → i < off → byte r i ≡ byte buf i
  pub above : (i : ℕ) → off + length chunk ≤ i → byte r i ≡ byte buf i

-- A write whose size and offset fit an `int` succeeds. It makes the content as long as its end where
-- it was shorter; the written bytes stand at the offset, every other byte is as it was, and the
-- bytes between the old end and the offset are 0.
pub write_content-Written :
    (buf : Bytes) (off : ℕ) (chunk : Bytes)
    → length chunk ≤ 0x7fffffff
    → off ≤ 0x7fffffff
    → (r : Bytes) × (write_content buf off chunk ≡ some r) × Written buf off chunk r
unfolding write_content
write_content-Written buf off chunk l o =
    let g = grow buf (length chunk) off in
    let e : write_content buf off chunk ≡ some (overwrite g off chunk) = ground arith in
    let fits = length-grow buf (length chunk) off in
    (
      overwrite g off chunk,
      e,
      record {
        size = length-overwrite g off chunk ∙ length_grow_lem buf (length chunk) off;
        inside = λ i p.
            let q = byte-overwrite g off chunk (off + i) fits in
            let k : off + i - off ≡ i = omega arith in ground (arith, q, ap (byte chunk) k);
        below = λ i p.
            ground (arith, byte-overwrite g off chunk i fits, byte-grow buf (length chunk) off i);
        above = λ i p.
            ground (arith, byte-overwrite g off chunk i fits, byte-grow buf (length chunk) off i);
      },
    )

-- What was written is read back at its offset.
pub read_content-Written :
    {buf : Bytes} {off : ℕ} {chunk r : Bytes}
    → Written buf off chunk r
    → read_content r (length chunk) off ≡ chunk
unfolding read_content
read_content-Written {buf} {off} {chunk} {r} w =
    let far : length r ≡ off + length chunk → drop off r ≡ chunk = λ e.
      bytes_ext (drop off r) chunk (omega (arith, length-drop off r, e))
        (λ i p. byte-drop off i r ∙ w.inside i (omega (arith, length-drop off r, e))) in
    let near : off + length chunk ≤ length r → take (length chunk) (drop off r) ≡ chunk = λ e.
      bytes_ext (take (length chunk) (drop off r)) chunk
        (omega (arith, length-take (length chunk) (drop off r), length-drop off r, e))
        (λ i p. ground (
          arith,
          byte-take (length chunk) i (drop off r),
          byte-drop off i r,
          w.inside i,
          length-take (length chunk) (drop off r),
        )) in
    let long : off + length chunk ≤ length r = ground (arith, w.size) in
    ground (arith, near long, long)
