-- ===== src/Rpc/Marshall/Containers/RoundTrip.antt =====
-- rpc/marshall.h: vectors and maps that are written to a message and read back.
use cse_labs.Prelude.{
  ℕ, ◌+◌, ◌%◌, ◌^◌, ◌<◌, ◌≤◌, ◌≡◌, ap, sym, ◌∙◌, true, some, List, [], ◌++◌, arith, Bytes, length,
  All, Key, length-append, append_assoc, append_nil,
}
use cse_labs.StdMap.{Map}
use cse_labs.Rpc.Marshall.{
  text, put_text, get_text, put_arg, Marshall, Unmarshall, put_u32, get_u32, message, take_in,
  okdone, new_marshall,
}
use cse_labs.Rpc.Marshall.Encode.{
  HasBuffer, Puts, Short, enc_arg, put_arg-Puts, new_marshall-HasBuffer, enc_u32, put_u32-Puts,
}
use cse_labs.Rpc.Marshall.RoundTrip.{reader, take_in-reader, get_text-enc, get_u32-enc_u32}
use cse_labs.Rpc.Marshall.Containers.{Operators, put_vector, get_vector, put_map, get_map}
use cse_labs.Rpc.Marshall.Containers.Vectors.{vector_operators, enc_vector}
use cse_labs.Rpc.Marshall.Containers.Maps.{IsOrdered, map_operators, enc_map}

-- Two of the types in marshall.h.
abbrev pub u32_operators : Operators ℕ
u32_operators = record {
  put = put_u32;
  get = λ u. some (get_u32 u);
  enc = enc_u32;
  Fits = λ x. x < 2 ^ 32;
  puts = put_u32-Puts;
  gets = λ i x r f l. ap some (get_u32-enc_u32 i x r f);
}

pub get_text-enc_arg :
    (i : ℕ) (s r : Bytes)
    → i + length (enc_arg (text s)) + length r < 2 ^ 31
    → get_text (reader i (enc_arg (text s) ++ r)) []
      ≡ some (s, reader (i + length (enc_arg (text s))) r)
get_text-enc_arg i s r l =
    let apart = append_assoc (enc_u32 (length s % 2 ^ 32)) s r in
    let whole = length-append (enc_u32 (length s % 2 ^ 32)) s in
    rw apart (
      get_text-enc i s r (omega (arith, whole))
      ∙ ap (λ k. some (s, reader k r)) (omega (arith, whole)))

pub put_text-Puts :
    (m : Marshall) (s : Bytes)
    → HasBuffer m
    → Short m (enc_arg (text s))
    → Puts m (enc_arg (text s)) (put_text m s)
put_text-Puts m s h l = unfold put_arg in put_arg-Puts m (text s) h l

abbrev pub text_operators : Operators Bytes
text_operators = record {
  put = put_text;
  get = λ u. get_text u [];
  enc = λ s. enc_arg (text s);
  Fits = λ s. Unit {0};
  puts = put_text-Puts;
  gets = λ i s r f l. get_text-enc_arg i s r l;
}

-- Through a message: what is written behind a new header is read from the message that was received.
through :
    {A : Type 0} (o : Operators A) (memory : Bytes) (a : A)
    → length memory ≡ 24
    → o.Fits a
    → length (o.enc a) ≤ 2 ^ 28
    → (m : Marshall) × (u : Unmarshall) × (o.put (new_marshall memory) a ≡ some m)
      × (o.get (take_in (message m)) ≡ some (a, u))
      × (okdone u ≡ true)
unfolding okdone
through o memory a sized fit l =
    let p = o.puts (new_marshall memory) a (new_marshall-HasBuffer memory) (omega (arith, l)) in
    let m = p.result in
    let whole : message m ≡ memory ++ o.enc a = λ i. p.header i ++ p.content i in
    let padded = ap (reader 24) (sym (append_nil (o.enc a))) in
    let done = o.gets 24 a [] fit (omega (arith, l)) in
    (
      m,
      reader (24 + length (o.enc a)) [],
      p.written,
      ap o.get (ap take_in whole ∙ take_in-reader memory (o.enc a) sized ∙ padded) ∙ done,
      ground arith,
    )

-- A vector arrives: marshalled behind a new header it is written without a fault, and unmarshalled into
-- a new vector it comes out equal, with nothing left over. The conditions: its elements fit their
-- type, are read back as they are written, and take at most 2 ^ 28 bytes with their number.
get_vector-put_vector :
    {A : Type 0} (o : Operators A) (memory : Bytes) (v : List A)
    → length memory ≡ 24
    → All o.Fits v
    → length v < 2 ^ 32
    → length (enc_vector o v) ≤ 2 ^ 28
    → (m : Marshall) × (u : Unmarshall) × (put_vector o (new_marshall memory) v ≡ some m)
      × (get_vector o (take_in (message m)) [] ≡ some (v, u))
      × (okdone u ≡ true)
get_vector-put_vector o memory v sized f n l = through (vector_operators o) memory v sized (f, n) l

-- A map arrives: its entries are written in the order of their keys, and unmarshalled into any map,
-- which is cleared first, they make the same map again. The conditions: the keys and the values fit
-- their types, are read back as they are written, and take at most 2 ^ 28 bytes with their number.
pub get_map-put_map :
    {A B : Type 0} ⦃k : Key A⦄ (o : Operators A) (p : Operators B) (memory : Bytes) (d e : Map A B)
    → length memory ≡ 24
    → All (λ x. o.Fits x.0 × p.Fits x.1) d
    → IsOrdered d
    → length d < 2 ^ 32
    → length (enc_map o p d) ≤ 2 ^ 28
    → (m : Marshall) × (u : Unmarshall) × (put_map o p (new_marshall memory) d ≡ some m)
      × (get_map o p (take_in (message m)) e ≡ some (d, u))
      × (okdone u ≡ true)
get_map-put_map o p memory d e sized f s n l =
    unfold get_map in through (map_operators o p) memory d sized (f, s, n) l
