-- ===== src/Rpc/Connection/Frames.antt =====
-- rpc/connection.cc: a message with its size, and where a connection is in it.
use cse_labs.Prelude.{
  ℕ, zero, suc, ◌^◌, ◌≤◌, ◌<◌, ◌≡◌, ◌⊎◌, refl, ap, sym, ◌∙◌, Bool, true, false, Option, none, some,
  List, [], ◌∷◌, ◌++◌, arith, Bytes, length, take, drop, length-drop, append_assoc, take_append,
  drop_append,
}
use cse_labs.Rpc.Marshall.{packed}
use cse_labs.Rpc.Connection.{Charbuf, max_pdu, put_size, size_of}

abbrev pub concat : List Bytes → Bytes
concat [] = []
concat (b ∷ bs) = b ++ concat bs

pub concat-append : (xs ys : List Bytes) → concat (xs ++ ys) ≡ concat xs ++ concat ys
concat-append [] ys = refl
concat-append (x ∷ xs) ys =
    ap (λ k. x ++ k) (concat-append xs ys) ∙ sym (append_assoc x (concat xs) (concat ys))

-- What `send` puts on the wire for a message.
abbrev pub framed : Bytes → Bytes
framed b = put_size b (length b)

pub record IsFrame (f : Bytes) : Type 0 where
  pub long : 4 < length f
  pub short : length f ≤ max_pdu
  pub front : take 4 f ≡ packed (length f)

pub length-put_size : (b : Bytes) (n : ℕ) → 4 ≤ length b → length (put_size b n) ≡ length b
unfolding put_size packed
length-put_size b n h = omega (arith, length-drop 4 b)

pub framed-IsFrame : (b : Bytes) → 4 < length b → length b ≤ max_pdu → IsFrame (framed b)
framed-IsFrame b l m =
    let e = length-put_size b (length b) (omega arith) in
    let same : packed (length b) ≡ packed (length (framed b)) = ap packed (sym e) in
    record {
      long = omega (arith, e);
      short = omega (arith, e);
      front = unfold put_size packed in same;
    }

pub framed_twice : (b : Bytes) → 4 ≤ length b → framed (framed b) ≡ framed b
framed_twice b h =
    let e = length-put_size b (length b) h in
    let same : put_size b (length (framed b)) ≡ framed b = ap (put_size b) e in
    unfold put_size packed in same

pub size_of-packed : (n : ℕ) → n < 2 ^ 32 → size_of (packed n) ≡ n
unfolding size_of packed
size_of-packed n h = omega arith

pub take_prefix : (n : ℕ) (xs ys : Bytes) → n ≤ length xs → take n (xs ++ ys) ≡ take n xs
take_prefix zero xs ys h = refl
take_prefix (suc n) [] ys h = absurd (omega arith)
take_prefix (suc n) (x ∷ xs) ys h = ap (◌∷◌ x) (take_prefix n xs ys (omega arith))

-- Two parts of the same length.
pub append_split :
    (xs ys us bs : Bytes) → length xs ≡ length ys → xs ++ us ≡ ys ++ bs → (xs ≡ ys) × (us ≡ bs)
append_split xs ys us bs l e = (
  sym (take_append xs us)
      ∙ ap (take (length xs)) e
      ∙ ap (λ k. take k (ys ++ bs)) l
      ∙ take_append ys bs,
  sym (drop_append xs us)
      ∙ ap (drop (length xs)) e
      ∙ ap (λ k. drop k (ys ++ bs)) l
      ∙ drop_append ys bs,
)

-- The rest of the message that is being sent.
abbrev pub Outgoing : Bool → Option Charbuf → Bytes → Type 0
Outgoing true w rest = Unit
Outgoing false none rest = rest ≡ []
Outgoing false (some w) rest =
    (w.sz ≡ length w.buf)
    × (4 < w.sz)
    × (w.solong ≤ w.sz)
    × (rest ≡ drop w.solong (framed w.buf))
    × ((w.solong ≡ 0) ⊎ (w.buf ≡ framed w.buf))

-- A message that is being received is the beginning of the first one that is pending.
pub record Begun (r : Charbuf) (stream : Bytes) (pending : List Bytes) : Type 0 where
  pub frame : Bytes
  pub others : List Bytes
  pub first : pending ≡ frame ∷ others
  pub size : r.sz ≡ length frame
  pub read : length r.buf ≡ r.solong
  pub inside : r.solong ≤ r.sz
  pub bytes : r.buf ++ stream ≡ frame ++ concat others

abbrev pub Incoming : Bool → Option Charbuf → Bytes → List Bytes → Type 0
Incoming true r stream pending = r ≡ none
Incoming false none stream pending = stream ≡ concat pending
Incoming false (some r) stream pending = Begun r stream pending
