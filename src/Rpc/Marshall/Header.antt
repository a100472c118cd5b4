-- ===== src/Rpc/Marshall/Header.antt =====
-- rpc/marshall.h: the headers of requests and replies; and a length that overflows.
use cse_labs.Prelude.{
  ℕ, ◌+◌, ◌^◌, ◌<◌, ◌≤◌, ◌≡◌, refl, ap, ◌∙◌, true, none, ◌∷◌, ◌++◌, arith, Bytes, length,
  length-append, length-take, length-drop, append_assoc, drop_prefix, take, drop,
}
use cse_labs.Rpc.Marshall.{
  message, take_in, Marshall, ReqHeader, ReplyHeader, packed, unpack, get_rawbytes, get_text,
  pack_req_header, pack_reply_header, unpack_req_header, unpack_reply_header,
}
use cse_labs.Rpc.Marshall.RoundTrip.{reader, get_u32-enc_u32}

-- Every field of a header fits 32 bits.
pub record IsReqHeader (h : ReqHeader) : Type 0 where
  pub xid : h.xid < 2 ^ 32
  pub proc : h.proc < 2 ^ 32
  pub clt_nonce : h.clt_nonce < 2 ^ 32
  pub srv_nonce : h.srv_nonce < 2 ^ 32
  pub xid_rep : h.xid_rep < 2 ^ 32

unpack-packed :
    (i x : ℕ) (r : Bytes) → x < 2 ^ 32 → unpack (reader i (packed x ++ r)) ≡ (x, reader (i + 4) r)
unfolding unpack packed
unpack-packed i x r h = get_u32-enc_u32 i x r h

-- A request's header that is packed into a message of any content is unpacked from it, and the
-- reader then stands at the content.
pub unpack_req_header-pack_req_header :
    (a b c d : ℕ) (rest content : Bytes) (capa : ℕ) (h : ReqHeader)
    → IsReqHeader h
    → unpack_req_header (
        message (
          pack_req_header
            (record { header = a ∷ b ∷ c ∷ d ∷ rest; content = content; capa = capa })
            h))
      ≡ (h, record { ind = 24; rest = content; ok = true })
unfolding unpack_req_header pack_req_header
unpack_req_header-pack_req_header a b c d rest content capa h v =
    let r5 = content in
    let r4 = packed h.xid_rep ++ r5 in
    let r3 = packed h.srv_nonce ++ r4 in
    let r2 = packed h.clt_nonce ++ r3 in
    let r1 = packed h.proc ++ r2 in
    let p1 = unpack-packed 4 h.xid r1 v.xid in
    let p2 = unpack-packed 8 h.proc r2 v.proc in
    let p3 = unpack-packed 12 h.clt_nonce r3 v.clt_nonce in
    let p4 = unpack-packed 16 h.srv_nonce r4 v.srv_nonce in
    let p5 = unpack-packed 20 h.xid_rep r5 v.xid_rep in
    unfold packed in rw (p1, p2, p3, p4, p5) refl

-- A reply's header that is packed into a message is unpacked from it; the reader then stands at the
-- content, and so does a reader that takes the message in.
pub unpack_reply_header-pack_reply_header :
    (m : Marshall) (h : ReplyHeader)
    → length m.header ≡ 24
    → h.xid < 2 ^ 32
    → h.ret < 2 ^ 32
    → (unpack_reply_header (message (pack_reply_header m h)) ≡ (h, reader 24 m.content))
      × (take_in (message (pack_reply_header m h)) ≡ reader 24 m.content)
unfolding unpack_reply_header pack_reply_header take_in packed
unpack_reply_header-pack_reply_header m h sized x r =
    let w = take 4 m.header in
    let px = packed h.xid in
    let pr = packed h.ret in
    let tail = drop 12 m.header in
    let head = w ++ px ++ pr ++ tail in
    let four : length w ≡ 4 = omega (arith, length-take 4 m.header, sized) in
    let whole : length head ≡ 24 = omega (
      arith,
      length-append (w ++ px ++ pr) tail,
      length-append (w ++ px) pr,
      length-append w px,
      length-drop 12 m.header,
      four,
      sized,
    ) in
    let front : drop 4 (head ++ m.content) ≡ px ++ (pr ++ (tail ++ m.content)) =
      ap (drop 4) (
        append_assoc (w ++ px ++ pr) tail m.content
        ∙ append_assoc (w ++ px) pr (tail ++ m.content)
        ∙ append_assoc w px (pr ++ (tail ++ m.content)))
      ∙ drop_prefix 4 w (px ++ (pr ++ (tail ++ m.content))) four in
    let back : drop 24 (head ++ m.content) ≡ m.content = drop_prefix 24 head m.content whole in
    let p1 = unpack-packed 4 h.xid (pr ++ (tail ++ m.content)) x in
    let p2 = unpack-packed 8 h.ret (tail ++ m.content) r in
    (rw (front, p1, p2, back) refl, rw back (ground (arith, length-append head m.content, whole)))

-- A string whose announced length is so large that the sum with the position wraps around in 32 bits
-- passes the test of its length, and bytes behind the end of the message are read. The message is of
-- any content that fits an `int`.
pub get_text_overflow :
    (i n : ℕ) (r s : Bytes)
    → n < 2 ^ 32
    → 2 ^ 32 ≤ i + 4 + n
    → i + 4 + length r < 2 ^ 31
    → get_text (reader i (packed n ++ r)) s ≡ none
unfolding get_text get_rawbytes
get_text_overflow i n r s small wraps fits =
    let p = get_u32-enc_u32 i n r small in unfold packed in ground (arith, p)
