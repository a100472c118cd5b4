-- ===== src/Rpc/Marshall/Containers/Vectors.antt =====
-- rpc/marshall.h: the operators of vectors.
use cse_labs.Prelude.{
  ℕ, ◌+◌, ◌%◌, ◌^◌, ◌<◌, ◌≡◌, refl, ap, sym, ◌∙◌, some, List, [], ◌∷◌, ◌++◌, arith, Bytes, length,
  All, length-append, append_assoc, append_nil,
}
use cse_labs.Rpc.Marshall.{Marshall}
use cse_labs.Rpc.Marshall.Encode.{HasBuffer, Puts, Short, enc_u32, put_u32-Puts, then-Puts}
use cse_labs.Rpc.Marshall.RoundTrip.{reader, get_u32-enc_u32}
use cse_labs.Rpc.Marshall.Containers.{Operators, put_each, put_vector, get_each, get_vector}

module _ {A : Type 0} (o : Operators A) where
  abbrev enc_each : List A → Bytes
  enc_each [] = []
  enc_each (x ∷ v) = o.enc x ++ enc_each v

  abbrev pub enc_vector : List A → Bytes
  enc_vector v = enc_u32 (length v % 2 ^ 32) ++ enc_each v

  put_each-Puts :
      (m : Marshall) (v : List A)
      → HasBuffer m
      → Short m (enc_each v)
      → Puts m (enc_each v) (put_each o m v)
  unfolding put_each
  put_each-Puts m [] h l = record {
    result = m;
    written = refl;
    header = refl;
    content = sym (append_nil m.content);
    buffer = h;
  }
  put_each-Puts m (x ∷ v) h l =
      let both = length-append (o.enc x) (enc_each v) in
      then-Puts {bs = o.enc x} l (o.puts m x h (omega (arith, both)))
        (λ m1 h1 l1. put_each-Puts m1 v h1 l1)

  pub put_vector-Puts :
      (m : Marshall) (v : List A)
      → HasBuffer m
      → Short m (enc_vector v)
      → Puts m (enc_vector v) (put_vector o m v)
  unfolding put_vector
  put_vector-Puts m v h l =
      let both = length-append (enc_u32 (length v % 2 ^ 32)) (enc_each v) in
      then-Puts {bs = enc_u32 (length v % 2 ^ 32)} l (put_u32-Puts m _ h (omega (arith, both)))
        (λ m1 h1 l1. put_each-Puts m1 v h1 l1)

  get_each-enc_each :
      (i : ℕ) (v w : List A) (r : Bytes)
      → All o.Fits v
      → i + length (enc_each v) + length r < 2 ^ 31
      → get_each o (reader i (enc_each v ++ r)) (length v) w
        ≡ some (w ++ v, reader (i + length (enc_each v)) r)
  unfolding get_each
  get_each-enc_each i [] w r f l =
      ap (λ k. some (k, reader i r)) (sym (append_nil w))
      ∙ ap (λ k. some (w ++ [], reader k r)) (omega arith)
  get_each-enc_each i (x ∷ v) w r f l =
      let both = length-append (o.enc x) (enc_each v) in
      let after = length-append (enc_each v) r in
      let here = o.gets i x (enc_each v ++ r) f.0 (omega (arith, both, after)) in
      let there =
        get_each-enc_each (i + length (o.enc x)) v (w ++ x ∷ []) r f.1 (omega (arith, both)) in
      let n : i + length (o.enc x) + length (enc_each v) ≡ i + length (o.enc x ++ enc_each v) =
        omega (arith, both) in
      rw (append_assoc (o.enc x) (enc_each v) r, here, there)
        (ap (λ k. some (k, reader (i + length (o.enc x) + length (enc_each v)) r))
            (append_assoc w (x ∷ []) v)
          ∙ ap (λ k. some (w ++ x ∷ v, reader k r)) n)

  pub get_vector-enc_vector :
      (i : ℕ) (v : List A) (r : Bytes)
      → All o.Fits v × (length v < 2 ^ 32)
      → i + length (enc_vector v) + length r < 2 ^ 31
      → get_vector o (reader i (enc_vector v ++ r)) []
        ≡ some (v, reader (i + length (enc_vector v)) r)
  unfolding get_vector
  get_vector-enc_vector i v r f l =
      let size = length v % 2 ^ 32 in
      let apart = append_assoc (enc_u32 size) (enc_each v) r in
      let count : size ≡ length v = omega (arith, f.1) in
      let here = get_u32-enc_u32 i size (enc_each v ++ r) (omega arith) in
      let there = get_each-enc_each (i + 4) v [] r f.0 (omega (arith, l)) in
      let n : i + 4 + length (enc_each v) ≡ i + length (enc_vector v) = omega arith in
      rw (apart, here, count, there) (ap (λ k. some (v, reader k r)) n)

  -- A vector is a value as its elements are, so there are vectors of vectors.
  abbrev pub vector_operators : Operators (List A)
  vector_operators = record {
    put = put_vector o;
    get = λ u. get_vector o u [];
    enc = enc_vector;
    Fits = λ v. All o.Fits v × (length v < 2 ^ 32);
    puts = put_vector-Puts;
    gets = get_vector-enc_vector;
  }
