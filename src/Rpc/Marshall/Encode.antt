-- ===== src/Rpc/Marshall/Encode.antt =====
-- rpc/rpc.cc: what the operators write, and the buffer that they write it to.
use cse_labs.Prelude.{
  ℕ, ◌+◌, ◌*◌, ◌/◌, ◌%◌, ◌^◌, ◌<◌, ◌≤◌, ◌≡◌, refl, ap, sym, subst, ◌∙◌, Option, some, List, [], ◌∷◌,
  ◌++◌, arith, Bytes, length, length-append, append_assoc, append_nil, ltb, leb, ◌>>=◌,
  if◌then◌else◌,
}
use cse_labs.Rpc.Marshall.{
  Marshall, new_marshall, ind, Arg, bool, u8, u16, u32, u64, text, rawbyte, rawbytes, put_bool,
  put_u16, put_u32, put_u64, put_text, put_arg, put_args,
}

-- The bytes of each value, most significant first.
abbrev enc_u16 : ℕ → Bytes
enc_u16 x = (x / 0x100 % 256) ∷ (x % 256) ∷ []

abbrev pub enc_u32 : ℕ → Bytes
enc_u32 x = (x / 0x1000000 % 256) ∷ (x / 0x10000 % 256) ∷ (x / 0x100 % 256) ∷ (x % 256) ∷ []

abbrev pub enc_arg : Arg → Bytes
enc_arg (bool x) = (if x then 1 else 0) ∷ []
enc_arg (u8 x) = (x % 256) ∷ []
enc_arg (u16 x) = enc_u16 x
enc_arg (u32 x) = enc_u32 x
enc_arg (u64 x) = enc_u32 (x / 2 ^ 32 % 2 ^ 32) ++ enc_u32 (x % 2 ^ 32)
enc_arg (text s) = enc_u32 (length s % 2 ^ 32) ++ s

abbrev pub enc_args : List Arg → Bytes
enc_args [] = []
enc_args (a ∷ rest) = enc_arg a ++ enc_args rest

-- The content ends inside the buffer, and the buffer is not much longer than it has to be.
pub record HasBuffer (m : Marshall) : Type 0 where
  pub inside : ind m ≤ m.capa
  pub small : m.capa ≤ 1024 + 2 * ind m

-- The operation writes these bytes behind the content and nowhere else.
pub record Puts (m : Marshall) (bs : Bytes) (r : Option Marshall) : Type 0 where
  pub result : Marshall
  pub written : r ≡ some result
  pub header : result.header ≡ m.header
  pub content : result.content ≡ m.content ++ bs
  pub buffer : HasBuffer result

abbrev pub Short : Marshall → Bytes → Type 0
Short m bs = length m.content + length bs ≤ 2 ^ 28

pub new_marshall-HasBuffer : (memory : Bytes) → HasBuffer (new_marshall memory)
new_marshall-HasBuffer memory = record { inside = omega arith; small = omega arith }

rawbyte-Puts :
    (m : Marshall) (x : ℕ)
    → HasBuffer m
    → length m.content + 1 ≤ 2 ^ 28
    → Puts m ((x % 256) ∷ []) (rawbyte m x)
unfolding rawbyte
rawbyte-Puts m x h l =
    let capa = if leb m.capa (ind m) then m.capa * 2 else m.capa in
    let len = length-append m.content ((x % 256) ∷ []) in
    record {
      result = record m { content = m.content ++ (x % 256) ∷ []; capa = capa };
      written = ground (arith, h.inside, h.small);
      header = refl;
      content = refl;
      buffer = record { inside = ground (arith, len); small = ground (arith, len) };
    }

rawbytes-Puts : (m : Marshall) (p : Bytes) → HasBuffer m → Short m p → Puts m p (rawbytes m p)
unfolding rawbytes
rawbytes-Puts m p h l =
    let n = length p in
    let capa =
      if ltb m.capa (ind m + n)
      then (if ltb n m.capa then 2 * m.capa else m.capa + n)
      else m.capa in
    let len = length-append m.content p in
    record {
      result = record m { content = m.content ++ p; capa = capa };
      written = ground (arith, h.inside, h.small);
      header = refl;
      content = refl;
      buffer = record { inside = ground (arith, len); small = ground (arith, len) };
    }

-- One operation after the other.
pub then-Puts :
    {m : Marshall} {bs cs : Bytes} {r : Option Marshall} {f : Marshall → Option Marshall}
    → Short m (bs ++ cs)
    → Puts m bs r
    → ((m' : Marshall) → HasBuffer m' → Short m' cs → Puts m' cs (f m'))
    → Puts m (bs ++ cs) (r >>= f)
then-Puts {m} {bs} {cs} {r} {f} l a b =
    let len = length-append m.content bs in
    let both = length-append bs cs in
    let here : length a.result.content ≡ length m.content + length bs = ap length a.content ∙ len in
    let c = b a.result a.buffer (omega (arith, here, both)) in
    record {
      result = c.result;
      written = ap (λ o. o >>= f) a.written ∙ c.written;
      header = c.header ∙ a.header;
      content = c.content ∙ ap (λ k. k ++ cs) a.content ∙ append_assoc m.content bs cs;
      buffer = c.buffer;
    }

byte-Puts :
    (m : Marshall) (x : ℕ)
    → x < 256
    → HasBuffer m
    → length m.content + 1 ≤ 2 ^ 28
    → Puts m (x ∷ []) (rawbyte m x)
byte-Puts m x s h l =
    let e : x % 256 ≡ x = omega arith in
    subst (λ k. Puts m (k ∷ []) (rawbyte m x)) e (rawbyte-Puts m x h l)

put_u16-Puts :
    (m : Marshall) (x : ℕ) → HasBuffer m → Short m (enc_u16 x) → Puts m (enc_u16 x) (put_u16 m x)
unfolding put_u16
put_u16-Puts m x h l =
    then-Puts {bs = (x / 0x100 % 256) ∷ []} l
      (byte-Puts m (x / 0x100 % 256) (omega arith) h (omega arith))
      (λ m1 h1 l1. byte-Puts m1 (x % 256) (omega arith) h1 l1)

pub put_u32-Puts :
    (m : Marshall) (x : ℕ) → HasBuffer m → Short m (enc_u32 x) → Puts m (enc_u32 x) (put_u32 m x)
unfolding put_u32
put_u32-Puts m x h l =
    then-Puts {bs = (x / 0x1000000 % 256) ∷ []} l (byte-Puts m _ (omega arith) h (omega arith))
      (λ m1 h1 l1.
        then-Puts {bs = (x / 0x10000 % 256) ∷ []} l1 (byte-Puts m1 _ (omega arith) h1 (omega arith))
          (λ m2 h2 l2.
            then-Puts {bs = (x / 0x100 % 256) ∷ []} l2
              (byte-Puts m2 _ (omega arith) h2 (omega arith))
              (λ m3 h3 l3. byte-Puts m3 (x % 256) (omega arith) h3 l3)))

pub put_arg-Puts :
    (m : Marshall) (a : Arg) → HasBuffer m → Short m (enc_arg a) → Puts m (enc_arg a) (put_arg m a)
unfolding put_arg put_bool put_u64 put_text
put_arg-Puts m (bool x) h l = byte-Puts m (if x then 1 else 0) (ground arith) h l
put_arg-Puts m (u8 x) h l = rawbyte-Puts m x h l
put_arg-Puts m (u16 x) h l = put_u16-Puts m x h l
put_arg-Puts m (u32 x) h l = put_u32-Puts m x h l
put_arg-Puts m (u64 x) h l =
    then-Puts {bs = enc_u32 (x / 2 ^ 32 % 2 ^ 32)} l (put_u32-Puts m _ h (omega arith))
      (λ m1 h1 l1. put_u32-Puts m1 (x % 2 ^ 32) h1 l1)
put_arg-Puts m (text s) h l =
    then-Puts {bs = enc_u32 (length s % 2 ^ 32)} l (put_u32-Puts m _ h (omega arith))
      (λ m1 h1 l1. rawbytes-Puts m1 s h1 l1)

-- Arguments of less than 2 ^ 28 bytes in all are written without a fault: no byte is written outside
-- the buffer and its capacity does not overflow. The content is then longer by the encodings of the
-- arguments, one after the other, and the header is as it was.
pub put_args-Puts :
    (m : Marshall) (args : List Arg)
    → HasBuffer m
    → length m.content + length (enc_args args) ≤ 2 ^ 28
    → Puts m (enc_args args) (put_args m args)
unfolding put_args
put_args-Puts m [] h l = record {
  result = m;
  written = refl;
  header = refl;
  content = sym (append_nil m.content);
  buffer = h;
}
put_args-Puts m (a ∷ rest) h l =
    let both = length-append (enc_arg a) (enc_args rest) in
    then-Puts {bs = enc_arg a} l (put_arg-Puts m a h (omega (arith, both)))
      (λ m1 h1 l1. put_args-Puts m1 rest h1 l1)
