-- ===== src/Rpc/Connection/Receiver.antt =====
-- rpc/connection.cc: readpdu and read_cb, and the message that is being received.
use cse_labs.Prelude.{
  ℕ, ◌-◌, ◌≤◌, ◌<◌, ◌≡◌, inl, inr, refl, ap, sym, subst, ◌∙◌, not, ◌&&◌, ltb, Bool, true, false,
  Option, none, some, List, [], ◌∷◌, ◌++◌, arith, Bytes, length, take, drop, ◌==◌, given_answer,
  Bool-cases, Option-cases, All, length-append, length-take, append_assoc, take-append-drop,
}
use cse_labs.Rpc.Marshall.{packed}
use cse_labs.Rpc.Connection.{
  Charbuf, Connection, max_pdu, Read, got, empty, size_of, read_size, read_body, read_on, readpdu,
  hand_up, wants_more, was_read, read_cb,
}
use cse_labs.Rpc.Connection.Stream.{Reads, some_bytes, nothing, end, error, asked_of}
use cse_labs.Rpc.Connection.Frames.{
  concat, IsFrame, size_of-packed, take_prefix, append_split, Begun, Incoming,
}

-- What the connection has read goes on with the stream.
rest-Begun :
    (r : Charbuf) (io : Read) (wire left rest : Bytes) (pending : List Bytes)
    → Reads (r.sz - r.solong) wire io left
    → Begun r (wire ++ rest) pending
    → Incoming (not (read_body r io).0) (read_body r io).1 (left ++ rest) pending
unfolding read_body
rest-Begun r _ wire _ rest pending (some_bytes k p m w) b = record {
  frame = b.frame;
  others = b.others;
  first = b.first;
  size = b.size;
  read = omega (arith, length-append r.buf (take k wire), b.read);
  inside = omega (arith, length-take k wire, m, b.inside);
  bytes =
      append_assoc r.buf (take k wire) (drop k wire ++ rest)
      ∙ ap (λ x. r.buf ++ x)
          (sym (append_assoc (take k wire) (drop k wire) rest)
            ∙ ap (λ x. x ++ rest) (take-append-drop k wire))
      ∙ b.bytes;
}
rest-Begun r _ wire left rest pending nothing b = b
rest-Begun r _ wire left rest pending (end true) b = b
rest-Begun r _ wire left rest pending (end false) b = refl
rest-Begun r _ wire left rest pending error b = refl

-- The size that is read is that of the first message.
record First (wire rest : Bytes) (pending : List Bytes) : Type 0 where
  frame : Bytes
  others : List Bytes
  first : pending ≡ frame ∷ others
  is_frame : IsFrame frame
  size : take 4 wire ≡ packed (length frame)
  bytes : wire ++ rest ≡ frame ++ concat others

find_frame :
    (wire rest : Bytes) (pending : List Bytes)
    → 4 ≤ length wire
    → All IsFrame pending
    → wire ++ rest ≡ concat pending
    → First wire rest pending
find_frame wire rest [] l fs e =
    let n = length-append wire rest in absurd (omega (arith, l, n, ap length e))
find_frame wire rest (f ∷ pending) l fs e = record {
  frame = f;
  others = pending;
  first = refl;
  is_frame = fs.0;
  size =
      sym (take_prefix 4 wire rest l)
      ∙ ap (take 4) e
      ∙ take_prefix 4 f (concat pending) (omega (arith, fs.0.long))
      ∙ fs.0.front;
  bytes = e;
}

read_size_lem :
    (bs : Bytes) (n : ℕ)
    → length bs ≡ 4
    → size_of bs ≡ n
    → 4 < n
    → n ≤ max_pdu
    → read_size (got bs) ≡ some (true, some (record { buf = bs; sz = n; solong = 4 }))
unfolding read_size
read_size_lem bs n l e p m = ground arith

four-Begun :
    (wire rest : Bytes) (pending : List Bytes) (a : Bool × Option Charbuf)
    → 4 ≤ length wire
    → All IsFrame pending
    → wire ++ rest ≡ concat pending
    → read_size (got (take 4 wire)) ≡ some a
    → Incoming (not a.0) a.1 (drop 4 wire ++ rest) pending
four-Begun wire rest pending a l fs e q =
    let h = find_frame wire rest pending l fs e in
    let n = length h.frame in
    let len : length (take 4 wire) ≡ 4 = omega (arith, length-take 4 wire, l) in
    let sz = ap size_of h.size ∙ size_of-packed n (omega (arith, h.is_frame.short)) in
    let done = read_size_lem (take 4 wire) n len sz h.is_frame.long h.is_frame.short in
    given_answer (λ b. Incoming (not b.0) b.1 (drop 4 wire ++ rest) pending) (sym done ∙ q)
      (record {
        frame = h.frame;
        others = h.others;
        first = h.first;
        size = refl;
        read = len;
        inside = omega (arith, h.is_frame.long);
        bytes =
            sym (append_assoc (take 4 wire) (drop 4 wire) rest)
            ∙ ap (λ x. x ++ rest) (take-append-drop 4 wire)
            ∙ h.bytes;
      })

size-Begun :
    (io : Read) (wire left rest : Bytes) (pending : List Bytes) (a : Bool × Option Charbuf)
    → Reads 4 wire io left
    → All IsFrame pending
    → wire ++ rest ≡ concat pending
    → read_size io ≡ some a
    → Incoming (not a.0) a.1 (left ++ rest) pending
unfolding read_size
size-Begun _ wire _ rest pending a (some_bytes k p m w) fs e q =
    elim (Bool-cases (length (take k wire) == 4)) [
      | inl t ↦
          let four : k ≡ 4 = ground (arith, t, length-take k wire, m, w) in
          subst (λ j. Incoming (not a.0) a.1 (drop j wire ++ rest) pending) (sym four)
            (four-Begun wire rest pending a (omega (arith, four, w)) fs e
              (subst (λ j. read_size (got (take j wire)) ≡ some a) four q))
      | inr t ↦
          given_answer (λ b. Incoming (not b.0) b.1 (drop k wire ++ rest) pending) (rw t at q) refl
    ]
size-Begun _ wire left rest pending a nothing fs e q = cc
size-Begun _ wire left rest pending a (end t) fs e q =
    given_answer (λ b. Incoming (not b.0) b.1 (wire ++ rest) pending) q refl
size-Begun _ wire left rest pending a error fs e q =
    given_answer (λ b. Incoming (not b.0) b.1 (wire ++ rest) pending) q refl

-- A message that is whole is handed up.
abbrev pub Hands : Connection → List Bytes → Bytes → List Bytes → Type 0
Hands c ms stream pending =
    (later : List Bytes) × (pending ≡ ms ++ later) × Incoming c.dead c.rpdu stream later

hand_up-Hands :
    (d : Bool) (w r : Option Charbuf) (takes : Bool) (stream : Bytes) (pending : List Bytes)
    → Incoming d r stream pending
    → let o = hand_up (record { dead = d; wpdu = w; rpdu = r }) takes in
      Hands o.0 o.1 stream pending
unfolding hand_up
hand_up-Hands d w none takes stream pending h = (pending, refl, h)
hand_up-Hands true w (some r) takes stream pending h = cc
hand_up-Hands false w (some r) takes stream pending h =
    elim (Bool-cases (r.sz == r.solong && takes)) [
      | inl t ↦
          let whole : length r.buf ≡ length h.frame = ground (arith, t, h.read, h.size) in
          let (same, after) = append_split r.buf h.frame stream (concat h.others) whole h.bytes in
          rw t (h.others, h.first ∙ ap (λ x. x ∷ h.others) (sym same), after)
      | inr t ↦ rw t (pending, refl, h)
    ]

nothing_asked : {wire left : Bytes} {r : Read} → Reads 0 wire r left → left ≡ wire
nothing_asked (some_bytes k p m w) = absurd (omega (arith, p, m))
nothing_asked nothing = refl
nothing_asked (end t) = refl
nothing_asked error = refl

read_on-Incoming :
    (a : Bool × Option Charbuf) (rest : Read) (mid left tail : Bytes) (pending : List Bytes)
    → Reads (asked_of (some a)) mid rest left
    → Incoming (not a.0) a.1 (mid ++ tail) pending
    → Incoming (not (read_on a rest).0) (read_on a rest).1 (left ++ tail) pending
unfolding read_on
read_on-Incoming (true, some r) rest mid left tail pending n h =
    rest-Begun r rest mid left tail pending n h
read_on-Incoming (true, none) rest mid left tail pending n h =
    subst (λ x. x ++ tail ≡ concat pending) (sym (nothing_asked n)) h
read_on-Incoming (false, r) rest mid left tail pending n h = h

-- A call of read_cb between two messages.
pub read_first-Hands :
    (w : Option Charbuf) (k : Connection) (first rest : Read) (takes : Bool) (ms : List Bytes)
    (wire mid left tail : Bytes) (pending : List Bytes)
    → Reads 4 wire first mid
    → Reads (asked_of (read_size first)) mid rest left
    → read_cb (record { dead = false; wpdu = w; rpdu = none }) first rest takes ≡ some (k, ms)
    → All IsFrame pending
    → wire ++ tail ≡ concat pending
    → Hands k ms (left ++ tail) pending
unfolding read_cb readpdu wants_more was_read
read_first-Hands w k first rest takes ms wire mid left tail pending m n q fs h =
    elim (Option-cases (read_size first)) [
      | inl e ↦ absurd (ground (arith, q, e))
      | inr (a, e) ↦
          let begun = size-Begun first wire mid tail pending a m fs h e in
          let on =
            read_on-Incoming a rest mid left tail pending
              (subst (λ o. Reads (asked_of o) mid rest left) e n) begun in
          given_answer (λ o. Hands o.0 o.1 (left ++ tail) pending) (rw e at q)
            (hand_up-Hands (not (read_on a rest).0) w (read_on a rest).1 takes (left ++ tail)
              pending on)
    ]

-- A call of read_cb in a message.
pub read_more-Hands :
    (w : Option Charbuf) (r : Charbuf) (k : Connection) (rest : Read) (takes : Bool)
    (ms : List Bytes) (wire left tail : Bytes) (pending : List Bytes)
    → Reads (r.sz - r.solong) wire rest left
    → read_cb (record { dead = false; wpdu = w; rpdu = some r }) empty rest takes ≡ some (k, ms)
    → Begun r (wire ++ tail) pending
    → Hands k ms (left ++ tail) pending
unfolding read_cb readpdu wants_more was_read
read_more-Hands w r k rest takes ms wire left tail pending n q b =
    elim (Bool-cases (ltb r.solong r.sz)) [
      | inl e ↦
          let on = rest-Begun r rest wire left tail pending n b in
          given_answer (λ o. Hands o.0 o.1 (left ++ tail) pending) (rw e at q)
            (hand_up-Hands (not (read_body r rest).0) w (read_body r rest).1 takes (left ++ tail)
              pending on)
      | inr e ↦
          let full : r.sz - r.solong ≡ 0 = ground (arith, e) in
          let same = nothing_asked (subst (λ j. Reads j wire rest left) full n) in
          given_answer (λ o. Hands o.0 o.1 (left ++ tail) pending) (rw e at q)
            (hand_up-Hands false w (some r) takes (left ++ tail) pending
              (subst (λ x. Begun r (x ++ tail) pending) (sym same) b))
    ]
