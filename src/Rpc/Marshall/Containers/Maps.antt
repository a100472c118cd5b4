-- ===== src/Rpc/Marshall/Containers/Maps.antt =====
-- rpc/marshall.h: the operators of maps.
use cse_labs.Prelude.{
  ℕ, ◌+◌, ◌%◌, ◌^◌, ◌<◌, ◌≡◌, refl, ap, sym, subst, ◌∙◌, false, some, [], ◌∷◌, ◌++◌, arith, Bytes,
  length, All, Key, length-append, append_assoc, append_nil,
}
use cse_labs.StdMap.{Map, insert}
use cse_labs.Rpc.Marshall.{Marshall}
use cse_labs.Rpc.Marshall.Encode.{HasBuffer, Puts, Short, enc_u32, put_u32-Puts, then-Puts}
use cse_labs.Rpc.Marshall.RoundTrip.{reader, get_u32-enc_u32}
use cse_labs.Rpc.Marshall.Containers.{Operators, put_entries, put_map, get_entries, get_map}

module _ {A B : Type 0} ⦃k : Key A⦄ where
  -- The entries of a map stand in the order of their keys.
  abbrev pub IsOrdered : Map A B → Type 0
  IsOrdered [] = Unit {0}
  IsOrdered ((a, b) ∷ d) = All (λ e. (k.beq a e.0 ≡ false) × (k.blt e.0 a ≡ false)) d × IsOrdered d

  All-at :
      (P : A × B → Type 0) (d : Map A B) (e : A × B) (rest : Map A B) → All P (d ++ e ∷ rest) → P e
  All-at P [] e rest h = h.0
  All-at P (x ∷ d) e rest h = All-at P d e rest h.1

  insert-last :
      (a : A) (b : B) (d rest : Map A B)
      → IsOrdered (d ++ (a, b) ∷ rest)
      → insert a b d ≡ d ++ (a, b) ∷ []
  unfolding insert
  insert-last a b [] rest h = refl
  insert-last a b ((c, x) ∷ d) rest h =
      let (n, m) = All-at (λ e. (k.beq c e.0 ≡ false) × (k.blt e.0 c ≡ false)) d (a, b) rest h.0 in
      rw (n, m) (ap (◌∷◌ (c, x)) (insert-last a b d rest h.1))

module _ {A B : Type 0} (o : Operators A) (p : Operators B) ⦃k : Key A⦄ where
  abbrev enc_entries : Map A B → Bytes
  enc_entries [] = []
  enc_entries ((a, b) ∷ d) = o.enc a ++ (p.enc b ++ enc_entries d)

  abbrev pub enc_map : Map A B → Bytes
  enc_map d = enc_u32 (length d % 2 ^ 32) ++ enc_entries d

  put_entries-Puts :
      (m : Marshall) (d : Map A B)
      → HasBuffer m
      → Short m (enc_entries d)
      → Puts m (enc_entries d) (put_entries o p m d)
  unfolding put_entries
  put_entries-Puts m [] h l = record {
    result = m;
    written = refl;
    header = refl;
    content = sym (append_nil m.content);
    buffer = h;
  }
  put_entries-Puts m ((a, b) ∷ d) h l =
      let both = length-append (o.enc a) (p.enc b ++ enc_entries d) in
      then-Puts {bs = o.enc a} l (o.puts m a h (omega (arith, both))) (λ m1 h1 l1.
        then-Puts {bs = p.enc b} l1
          (p.puts m1 b h1 (omega (arith, length-append (p.enc b) (enc_entries d))))
          (λ m2 h2 l2. put_entries-Puts m2 d h2 l2))

  pub put_map-Puts :
      (m : Marshall) (d : Map A B)
      → HasBuffer m
      → Short m (enc_map d)
      → Puts m (enc_map d) (put_map o p m d)
  unfolding put_map
  put_map-Puts m d h l =
      let both = length-append (enc_u32 (length d % 2 ^ 32)) (enc_entries d) in
      then-Puts {bs = enc_u32 (length d % 2 ^ 32)} l (put_u32-Puts m _ h (omega (arith, both)))
        (λ m1 h1 l1. put_entries-Puts m1 d h1 l1)

  get_entries-enc_entries :
      (i : ℕ) (d e : Map A B) (r : Bytes)
      → All (λ x. o.Fits x.0 × p.Fits x.1) d
      → IsOrdered (e ++ d)
      → i + length (enc_entries d) + length r < 2 ^ 31
      → get_entries o p (reader i (enc_entries d ++ r)) (length d) e
        ≡ some (e ++ d, reader (i + length (enc_entries d)) r)
  unfolding get_entries
  get_entries-enc_entries i [] e r f s l =
      ap (λ x. some (x, reader i r)) (sym (append_nil e))
      ∙ ap (λ x. some (e ++ [], reader x r)) (omega arith)
  get_entries-enc_entries i ((a, b) ∷ d) e r f s l =
      let rest = enc_entries d in
      let len1 = length-append (o.enc a) (p.enc b ++ rest) in
      let len2 = length-append (p.enc b) rest in
      let len3 = length-append (p.enc b ++ rest) r in
      let len4 = length-append rest r in
      let first = o.gets i a ((p.enc b ++ rest) ++ r) f.0.0 (omega (arith, len1, len3, l)) in
      let second =
        p.gets (i + length (o.enc a)) b (rest ++ r) f.0.1 (omega (arith, len1, len2, len4, l)) in
      let put = insert-last a b e d s in
      let moved = append_assoc e ((a, b) ∷ []) d in
      let there =
        get_entries-enc_entries (i + length (o.enc a) + length (p.enc b)) d (e ++ (a, b) ∷ []) r f.1
          (subst IsOrdered (sym moved) s) (omega (arith, len1, len2, l)) in
      let n : i + length (o.enc a) + length (p.enc b) + length rest
          ≡ i + length (o.enc a ++ (p.enc b ++ rest)) =
        omega (arith, len1, len2) in
      rw
        (
          append_assoc (o.enc a) (p.enc b ++ rest) r,
          first,
          append_assoc (p.enc b) rest r,
          second,
          put,
          there,
        )
        (ap (λ x. some (x, reader (i + length (o.enc a) + length (p.enc b) + length rest) r)) moved
          ∙ ap (λ x. some (e ++ (a, b) ∷ d, reader x r)) n)

  pub get_map-enc_map :
      (i : ℕ) (d : Map A B) (r : Bytes)
      → All (λ x. o.Fits x.0 × p.Fits x.1) d × IsOrdered d × (length d < 2 ^ 32)
      → i + length (enc_map d) + length r < 2 ^ 31
      → get_map o p (reader i (enc_map d ++ r)) [] ≡ some (d, reader (i + length (enc_map d)) r)
  unfolding get_map
  get_map-enc_map i d r f l =
      let size = length d % 2 ^ 32 in
      let apart = append_assoc (enc_u32 size) (enc_entries d) r in
      let count : size ≡ length d = omega (arith, f.2) in
      let here = get_u32-enc_u32 i size (enc_entries d ++ r) (omega arith) in
      let there = get_entries-enc_entries (i + 4) d [] r f.0 f.1 (omega (arith, l)) in
      let n : i + 4 + length (enc_entries d) ≡ i + length (enc_map d) = omega arith in
      rw (apart, here, count, there) (ap (λ x. some (d, reader x r)) n)

  abbrev pub map_operators : Operators (Map A B)
  map_operators = record {
    put = put_map o p;
    get = λ u. get_map o p u [];
    enc = enc_map;
    Fits = λ d. All (λ x. o.Fits x.0 × p.Fits x.1) d × IsOrdered d × (length d < 2 ^ 32);
    puts = put_map-Puts;
    gets = get_map-enc_map;
  }
