-- ===== src/Rpc/Marshall/RoundTrip.antt =====
-- rpc/rpc.cc: marshalled arguments, and what is read of them.
use cse_labs.Prelude.{
  ℕ, ◌+◌, ◌*◌, ◌/◌, ◌%◌, ◌^◌, ◌<◌, ◌≤◌, ◌≡◌, refl, ap, sym, subst, ◌∙◌, true, false, some, List, [],
  ◌∷◌, ◌++◌, arith, Bytes, length, length-append, append_assoc, append_nil, take_append,
  drop_append, drop, All, ◌>>=◌, map,
}
use cse_labs.Rpc.Marshall.{
  message, Marshall, Unmarshall, Arg, bool, u8, u16, u32, u64, text, kind, char_to_u32, next_byte,
  get_rawbyte, get_rawbytes, get_bool, get_u8, get_u16, get_u32, get_u64, get_text, get_arg,
  get_args, okdone, take_in, put_args, new_marshall,
}
use cse_labs.Rpc.Marshall.Encode.{enc_u32, enc_arg, enc_args, new_marshall-HasBuffer, put_args-Puts}

-- The value fits its type in C.
abbrev pub FitsType : Arg → Type 0
FitsType (bool x) = Unit {0}
FitsType (u8 x) = x < 2 ^ 8
FitsType (u16 x) = x < 2 ^ 16
FitsType (u32 x) = x < 2 ^ 32
FitsType (u64 x) = x < 2 ^ 64
FitsType (text s) = Unit {0}

abbrev pub reader : ℕ → Bytes → Unmarshall
reader i r = record { ind = i; rest = r; ok = true }

low_byte : (c : ℕ) → c < 256 → char_to_u32 c % 256 ≡ c
unfolding char_to_u32
low_byte c h = ground arith

pub get_u32-enc_u32 :
    (i x : ℕ) (r : Bytes) → x < 2 ^ 32 → get_u32 (reader i (enc_u32 x ++ r)) ≡ (x, reader (i + 4) r)
unfolding get_u32 get_rawbyte next_byte
get_u32-enc_u32 i x r h =
    let a = low_byte (x / 0x1000000 % 256) (omega arith) in
    let b = low_byte (x / 0x10000 % 256) (omega arith) in
    let c = low_byte (x / 0x100 % 256) (omega arith) in
    let d = low_byte (x % 256) (omega arith) in
    let v : x / 0x1000000 % 256 * 0x1000000
          + x / 0x10000 % 256 * 0x10000
          + x / 0x100 % 256 * 0x100
          + x % 256
        ≡ x =
      omega arith in
    let n : i + 1 + 1 + 1 + 1 ≡ i + 4 = omega arith in
    rw (a, b, c, d, n) (ap (λ k. (k, reader (i + 4) r)) v)

get_u64-enc_u32 :
    (i x : ℕ) (r : Bytes)
    → x < 2 ^ 64
    → get_u64 (reader i (enc_u32 (x / 2 ^ 32 % 2 ^ 32) ++ (enc_u32 (x % 2 ^ 32) ++ r)))
      ≡ (x, reader (i + 8) r)
unfolding get_u64
get_u64-enc_u32 i x r h =
    let lo = enc_u32 (x % 2 ^ 32) ++ r in
    let p = get_u32-enc_u32 i (x / 2 ^ 32 % 2 ^ 32) lo (omega arith) in
    let q = get_u32-enc_u32 (i + 4) (x % 2 ^ 32) r (omega arith) in
    let v : x % 2 ^ 32 + x / 2 ^ 32 % 2 ^ 32 * 2 ^ 32 ≡ x = omega arith in
    let n : i + 4 + 4 ≡ i + 8 = omega arith in
    ap (λ (u : ℕ × Unmarshall). ((get_u32 u.1).0 + u.0 * 2 ^ 32, (get_u32 u.1).1)) p
    ∙ ap (λ (u : ℕ × Unmarshall). (u.0 + x / 2 ^ 32 % 2 ^ 32 * 2 ^ 32, u.1)) q
    ∙ ap (λ k. (k, reader (i + 4 + 4) r)) v
    ∙ ap (λ k. (x, reader k r)) n

pub get_text-enc :
    (i : ℕ) (s r : Bytes)
    → i + 4 + length s + length r < 2 ^ 31
    → get_text (reader i (enc_u32 (length s % 2 ^ 32) ++ (s ++ r))) []
      ≡ some (s, reader (i + 4 + length s) r)
unfolding get_text get_rawbytes
get_text-enc i s r l =
    let both = length-append s r in
    let n : length s % 2 ^ 32 ≡ length s = omega arith in
    let p = get_u32-enc_u32 i (length s % 2 ^ 32) (s ++ r) (omega arith) in
    let front = take_append s r in
    let back = drop_append s r in ground (arith, p, n, front, back, both)

pub get_arg-enc_arg :
    (i : ℕ) (a : Arg) (r : Bytes)
    → FitsType a
    → i + length (enc_arg a) + length r < 2 ^ 31
    → get_arg (reader i (enc_arg a ++ r)) (kind a) ≡ some (a, reader (i + length (enc_arg a)) r)
unfolding get_arg get_rawbyte next_byte get_bool get_u8 get_u16
get_arg-enc_arg i (bool true) r f l = unfold char_to_u32 in refl
get_arg-enc_arg i (bool false) r f l = unfold char_to_u32 in refl
get_arg-enc_arg i (u8 x) r f l =
    let e : char_to_u32 (x % 256) % 256 ≡ x = low_byte (x % 256) (omega arith) ∙ omega arith in
    ap (λ k. some (u8 k, reader (i + 1) r)) e
get_arg-enc_arg i (u16 x) r f l =
    let a = low_byte (x / 0x100 % 256) (omega arith) in
    let b = low_byte (x % 256) (omega arith) in
    let n : i + 1 + 1 ≡ i + 2 = omega arith in
    let v : x / 0x100 % 256 * 0x100 + x % 256 ≡ x = omega arith in
    rw (a, b, n) (ap (λ k. some (u16 k, reader (i + 2) r)) v)
get_arg-enc_arg i (u32 x) r f l = ap (λ p. some (u32 p.0, p.1)) (get_u32-enc_u32 i x r f)
get_arg-enc_arg i (u64 x) r f l = ap (λ p. some (u64 p.0, p.1)) (get_u64-enc_u32 i x r f)
get_arg-enc_arg i (text s) r f l =
    let apart = append_assoc (enc_u32 (length s % 2 ^ 32)) s r in
    let whole = length-append (enc_u32 (length s % 2 ^ 32)) s in
    let n : i + (4 + length s) ≡ i + 4 + length s = omega arith in
    ap (λ o. o >>= (λ (v, u1). some (text v, u1))) (get_text-enc i s r (omega (arith, whole)))
    ∙ ap (λ k. some (text s, reader k r)) (omega (arith, whole))

pub get_args-enc_args :
    (i : ℕ) (args : List Arg) (r : Bytes)
    → All FitsType args
    → i + length (enc_args args) + length r < 2 ^ 31
    → get_args (reader i (enc_args args ++ r)) (map kind args)
      ≡ some (args, reader (i + length (enc_args args)) r)
unfolding get_args
get_args-enc_args i [] r f l = ap (λ k. some ([], reader k r)) (omega arith)
get_args-enc_args i (a ∷ args) r f l =
    let both = length-append (enc_arg a) (enc_args args) in
    let after = length-append (enc_args args) r in
    let here = get_arg-enc_arg i a (enc_args args ++ r) f.0 (omega (arith, both, after)) in
    let there = get_args-enc_args (i + length (enc_arg a)) args r f.1 (omega (arith, both)) in
    let n : i + length (enc_arg a) + length (enc_args args)
        ≡ i + length (enc_arg a ++ enc_args args) =
      omega (arith, both) in
    rw (append_assoc (enc_arg a) (enc_args args) r, here, there)
      (ap (λ k. some (a ∷ args, reader k r)) n)

-- A message behind a header of 24 bytes, taken in.
pub take_in-reader :
    (memory bs : Bytes) → length memory ≡ 24 → take_in (memory ++ bs) ≡ reader 24 bs
unfolding take_in
take_in-reader memory bs sized =
    let len = length-append memory bs in
    let back : drop 24 (memory ++ bs) ≡ bs =
      subst (λ k. drop k (memory ++ bs) ≡ bs) sized (drop_append memory bs) in
    ground (arith, len, back)

-- The arguments of a call arrive: marshalled behind a new header they are written without a fault,
-- and unmarshalled by their types they come out equal, with nothing left over. The condition: every
-- argument fits its type, and they take at most 2 ^ 28 bytes in all.
pub get_args-put_args :
    (memory : Bytes) (args : List Arg)
    → length memory ≡ 24
    → All FitsType args
    → length (enc_args args) ≤ 2 ^ 28
    → (m : Marshall) × (u : Unmarshall) × (put_args (new_marshall memory) args ≡ some m)
      × (get_args (take_in (message m)) (map kind args) ≡ some (args, u))
      × (okdone u ≡ true)
unfolding okdone
get_args-put_args memory args sized fit l =
    let p =
      put_args-Puts (new_marshall memory) args (new_marshall-HasBuffer memory) (omega (arith, l)) in
    let m = p.result in
    let whole : message m ≡ memory ++ enc_args args = λ i. p.header i ++ p.content i in
    let received = ap take_in whole ∙ take_in-reader memory (enc_args args) sized in
    let padded = ap (reader 24) (sym (append_nil (enc_args args))) in
    let done = get_args-enc_args 24 args [] fit (omega (arith, l)) in
    (
      m,
      reader (24 + length (enc_args args)) [],
      p.written,
      ap (λ u. get_args u (map kind args)) (received ∙ padded) ∙ done,
      ground arith,
    )
