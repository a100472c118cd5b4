-- ===== src/Rpc/Connection/InOrder.antt =====
-- rpc/connection.cc: the messages that are handed up, and those that were sent.
use cse_labs.Prelude.{
  ℕ, zero, suc, ◌≤◌, ◌<◌, ◌≡◌, ◌⊎◌, inl, inr, refl, ap, sym, subst, ◌∙◌, map, Bool, true, false,
  Option, none, some, List, [], ◌∷◌, ◌++◌, arith, Bytes, length, drop, All, All-append,
  length-append, append_assoc, append_nil,
}
use cse_labs.Rpc.Connection.{Charbuf, Connection, max_pdu, send_begin, send_end, read_cb, empty}
use cse_labs.Rpc.Connection.Stream.{
  Stream, Step, sends, writes, ends, reads_size, reads_rest, Reach, begin, next,
}
use cse_labs.Rpc.Connection.Frames.{
  concat, concat-append, framed, framed-IsFrame, length-put_size, IsFrame, Outgoing, Incoming,
}
use cse_labs.Rpc.Connection.Sender.{write_cb-Goes}
use cse_labs.Rpc.Connection.Receiver.{Hands, read_first-Hands, read_more-Hands}

pub record InOrder (s : Stream) : Type 0 where
  pub pending : List Bytes
  pub rest : Bytes
  pub whole : map framed s.requested ≡ s.handed ++ pending
  pub frames : All IsFrame pending
  pub outgoing : Outgoing s.sender.dead s.sender.wpdu rest
  pub incoming : Incoming s.receiver.dead s.receiver.rpdu (s.wire ++ rest) pending

concat-snoc : (xs : List Bytes) (f : Bytes) → concat (xs ++ f ∷ []) ≡ concat xs ++ f
concat-snoc xs f = concat-append xs (f ∷ []) ∙ ap (λ k. concat xs ++ k) (append_nil f)

Incoming-append :
    (d : Bool) (r : Option Charbuf) (x f : Bytes) (pending : List Bytes)
    → Incoming d r x pending
    → Incoming d r (x ++ f) (pending ++ f ∷ [])
Incoming-append true r x f pending h = h
Incoming-append false none x f pending h = ap (λ k. k ++ f) h ∙ sym (concat-snoc pending f)
Incoming-append false (some r) x f pending h = record {
  frame = h.frame;
  others = h.others ++ f ∷ [];
  first = ap (λ k. k ++ f ∷ []) h.first;
  size = h.size;
  read = h.read;
  inside = h.inside;
  bytes =
      sym (append_assoc r.buf x f)
      ∙ ap (λ k. k ++ f) h.bytes
      ∙ append_assoc h.frame (concat h.others) f
      ∙ ap (λ k. h.frame ++ k) (sym (concat-snoc h.others f));
}

map-append :
    (xs : List Bytes) (b : Bytes) → map framed (xs ++ b ∷ []) ≡ map framed xs ++ framed b ∷ []
map-append [] b = refl
map-append (x ∷ xs) b = ap (◌∷◌ (framed x)) (map-append xs b)

sends-InOrder :
    (s : Stream) (b : Bytes)
    → s.sender.dead ≡ false
    → s.sender.wpdu ≡ none
    → 4 < length b
    → length b ≤ max_pdu
    → InOrder s
    → InOrder (record s { sender = send_begin s.sender b; requested = s.requested ++ b ∷ [] })
unfolding send_begin
sends-InOrder s b d e l m h =
    let nil : h.rest ≡ [] =
      subst (λ o. Outgoing false o h.rest) e
        (subst (λ k. Outgoing k s.sender.wpdu h.rest) d h.outgoing) in
    record {
      pending = h.pending ++ framed b ∷ [];
      rest = framed b;
      whole =
          map-append s.requested b
          ∙ ap (λ k. k ++ framed b ∷ []) h.whole
          ∙ append_assoc s.handed h.pending (framed b ∷ []);
      frames = All-append IsFrame h.pending (framed b ∷ []) h.frames (framed-IsFrame b l m, tt);
      outgoing =
          subst (λ k. Outgoing k (send_begin s.sender b).wpdu (framed b)) (sym d)
            (refl, l, omega arith, refl, inl refl);
      incoming = Incoming-append s.receiver.dead s.receiver.rpdu s.wire (framed b) h.pending (
          subst (λ k. Incoming s.receiver.dead s.receiver.rpdu k h.pending)
            (ap (λ k. s.wire ++ k) nil ∙ append_nil s.wire) h.incoming);
    }

drop_all : (n : ℕ) (xs : Bytes) → length xs ≤ n → drop n xs ≡ []
drop_all zero [] h = refl
drop_all zero (x ∷ xs) h = absurd (omega arith)
drop_all (suc n) [] h = refl
drop_all (suc n) (x ∷ xs) h = drop_all n xs (omega arith)

-- The end of `send` leaves nothing to write, or the connection dead.
ends-Outgoing :
    (d : Bool) (w : Charbuf) (rest : Bytes)
    → (d ≡ true) ⊎ (w.solong ≡ w.sz)
    → Outgoing d (some w) rest
    → Outgoing d none rest
ends-Outgoing true w rest q h = tt
ends-Outgoing false w rest (inl q) h = cc
ends-Outgoing false w rest (inr q) (s, l, i, r, _) =
    let len = length-put_size w.buf (length w.buf) (omega (arith, s, l)) in
    r ∙ drop_all w.solong (framed w.buf) (omega (arith, len, s, q))

All-later : (xs ys : List Bytes) → All IsFrame (xs ++ ys) → All IsFrame ys
All-later [] ys h = h
All-later (x ∷ xs) ys h = All-later xs ys h.1

handed-InOrder :
    (s : Stream) (c : Connection) (ms : List Bytes) (left : Bytes)
    → (h : InOrder s) → Hands c ms (left ++ h.rest) h.pending
    → InOrder (record s { wire = left; receiver = c; handed = s.handed ++ ms })
handed-InOrder s c ms left h (later, split, incoming) = record {
  pending = later;
  rest = h.rest;
  whole = h.whole ∙ ap (λ k. s.handed ++ k) split ∙ sym (append_assoc s.handed ms later);
  frames = All-later ms later (subst (All IsFrame) split h.frames);
  outgoing = h.outgoing;
  incoming = incoming;
}

receiver_is :
    (s : Stream) (r : Option Charbuf)
    → s.receiver.dead ≡ false
    → s.receiver.rpdu ≡ r
    → s.receiver ≡ record { dead = false; wpdu = s.receiver.wpdu; rpdu = r }
receiver_is s r d e = λ i. record { dead = d i; wpdu = s.receiver.wpdu; rpdu = e i }

receiving :
    (s : Stream) (r : Option Charbuf)
    → s.receiver.dead ≡ false
    → s.receiver.rpdu ≡ r
    → (h : InOrder s) → Incoming false r (s.wire ++ h.rest) h.pending
receiving s r d e h =
    subst (λ o. Incoming false o (s.wire ++ h.rest) h.pending) e
      (subst (λ k. Incoming k s.receiver.rpdu (s.wire ++ h.rest) h.pending) d h.incoming)

Step-InOrder : {s t : Stream} → Step s t → InOrder s → InOrder t
Step-InOrder {s} (sends b d e l m) h = sends-InOrder s b d e l m h
Step-InOrder {s} (writes w io c bs e k q) h =
    let (left, split, out) = write_cb-Goes s.sender c w io bs h.rest e k q h.outgoing in
    record {
      pending = h.pending;
      rest = left;
      whole = h.whole;
      frames = h.frames;
      outgoing = out;
      incoming =
          subst (λ x. Incoming s.receiver.dead s.receiver.rpdu x h.pending)
            (ap (λ x. s.wire ++ x) split ∙ sym (append_assoc s.wire bs left)) h.incoming;
    }
Step-InOrder {s} (ends w e q) h = record {
  pending = h.pending;
  rest = h.rest;
  whole = h.whole;
  frames = h.frames;
  outgoing =
      unfold send_end in
      ends-Outgoing s.sender.dead w h.rest q
        (subst (λ o. Outgoing s.sender.dead o h.rest) e h.outgoing);
  incoming = h.incoming;
}
Step-InOrder {s} (reads_size first rest left1 left2 takes c ms d e m n q) h =
    handed-InOrder s c ms left2 h (
      read_first-Hands s.receiver.wpdu c first rest takes ms s.wire left1 left2 h.rest h.pending m n
        (subst (λ k. read_cb k first rest takes ≡ some (c, ms)) (receiver_is s none d e) q) h.frames
        (receiving s none d e h))
Step-InOrder {s} (reads_rest r rest left takes c ms d e n q) h = handed-InOrder s c ms left h (
    read_more-Hands s.receiver.wpdu r c rest takes ms s.wire left h.rest h.pending n
      (subst (λ k. read_cb k empty rest takes ≡ some (c, ms)) (receiver_is s (some r) d e) q)
      (receiving s (some r) d e h))

Reach-InOrder : {s : Stream} → Reach s → InOrder s
Reach-InOrder begin = record {
  pending = [];
  rest = [];
  whole = refl;
  frames = tt;
  outgoing = refl;
  incoming = refl;
}
Reach-InOrder (next r m) = Step-InOrder m (Reach-InOrder r)

-- However the system calls cut the stream into pieces, and whenever it breaks: the messages that the
-- receiver hands up are, in their order and each of them whole with its size in front, the first
-- ones of those that `send` was called with.
pub messages_in_order :
    {s : Stream} → Reach s → (later : List Bytes) × (map framed s.requested ≡ s.handed ++ later)
messages_in_order r = let h = Reach-InOrder r in (h.pending, h.whole)

nothing_pending : (pending : List Bytes) → All IsFrame pending → [] ≡ concat pending → pending ≡ []
nothing_pending [] fs e = refl
nothing_pending (f ∷ pending) fs e =
    absurd (omega (arith, fs.0.long, length-append f (concat pending), ap length e))

-- When no `send` is under way, nothing is on the wire, the receiver is between two messages and neither
-- connection is dead, every message that was sent has been handed up, in order.
pub messages_arrive :
    {s : Stream}
    → Reach s
    → s.sender.dead ≡ false
    → s.sender.wpdu ≡ none
    → s.wire ≡ []
    → s.receiver.dead ≡ false
    → s.receiver.rpdu ≡ none
    → s.handed ≡ map framed s.requested
messages_arrive {s} r d e w f g =
    let h = Reach-InOrder r in
    let nil : h.rest ≡ [] =
      subst (λ o. Outgoing false o h.rest) e
        (subst (λ k. Outgoing k s.sender.wpdu h.rest) d h.outgoing) in
    let all : s.wire ++ h.rest ≡ concat h.pending = receiving s none f g h in
    let none_left = nothing_pending h.pending h.frames (sym (λ i. w i ++ nil i) ∙ all) in
    sym (h.whole ∙ ap (λ k. s.handed ++ k) none_left ∙ append_nil s.handed)
