-- ===== src/Rpc/Stubs/Remote.antt =====
-- rpc/rpc.h: a call over the wire, from its arguments to its result.
use cse_labs.Prelude.{
  ℕ, ◌+◌, ◌^◌, ◌<◌, ◌≤◌, ◌≡◌, refl, ap, sym, ◌∙◌, true, false, Option, some, List, [], ◌∷◌, arith,
  Bytes, length, append_nil, ltb, leb, ◌>>=◌, All, map,
}
use cse_labs.Rpc.Marshall.{
  Marshall, new_marshall, message, Arg, kind, Kind, get_arg, get_args, okdone, ReqHeader,
  ReplyHeader, pack_req_header, pack_reply_header, unpack_req_header,
}
use cse_labs.Rpc.Marshall.Encode.{
  enc_arg, enc_args, new_marshall-HasBuffer, put_arg-Puts, put_args-Puts,
}
use cse_labs.Rpc.Marshall.RoundTrip.{reader, FitsType, get_arg-enc_arg, get_args-enc_args}
use cse_labs.Rpc.Marshall.Header.{
  IsReqHeader, unpack_req_header-pack_req_header, unpack_reply_header-pack_reply_header,
}
use cse_labs.Rpc.Stubs.{request, run_method, serve, take_reply, call_m}

-- One call: the request goes to the server, which runs the method, and the reply comes back. The
-- memories are those of the new messages.
unfoldable pub remote_call :
    (List Arg → ℕ × Arg)
    → List Kind
    → Kind
    → Bytes
    → Bytes
    → ReqHeader
    → List Arg
    → Option (ℕ × Option Arg)
remote_call meth kinds k sending replying h args = do
  q ← request sending h args
  p ← serve meth kinds replying (unpack_req_header q).0.xid (unpack_req_header q).1
  (g, u) ← take_reply p
  call_m g.ret u k

-- Four bytes at least.
data HasFour : Bytes → Type 0 where
  four : (a b c d : ℕ) (rest : Bytes) → HasFour (a ∷ b ∷ c ∷ d ∷ rest)

length-HasFour : (xs : Bytes) → 4 ≤ length xs → HasFour xs
length-HasFour [] l = absurd (omega (arith, l))
length-HasFour (a ∷ []) l = absurd (omega (arith, l))
length-HasFour (a ∷ b ∷ []) l = absurd (omega (arith, l))
length-HasFour (a ∷ b ∷ c ∷ []) l = absurd (omega (arith, l))
length-HasFour (a ∷ b ∷ c ∷ d ∷ rest) l = four a b c d rest

unpack-HasFour :
    (header content : Bytes) (capa : ℕ) (h : ReqHeader)
    → HasFour header
    → IsReqHeader h
    → unpack_req_header
        (message (pack_req_header (record { header = header; content = content; capa = capa }) h))
      ≡ (h, reader 24 content)
unpack-HasFour _ content capa h (four a b c d rest) v =
    unpack_req_header-pack_req_header a b c d rest content capa h v

unpack-pack :
    (m : Marshall) (h : ReqHeader)
    → length m.header ≡ 24
    → IsReqHeader h
    → unpack_req_header (message (pack_req_header m h)) ≡ (h, reader 24 m.content)
unpack-pack m h sized v =
    unpack-HasFour m.header m.content m.capa h (length-HasFour m.header (omega (arith, sized))) v

request-arrives :
    (memory : Bytes) (h : ReqHeader) (args : List Arg)
    → length memory ≡ 24
    → IsReqHeader h
    → length (enc_args args) ≤ 2 ^ 28
    → (q : Bytes) × (request memory h args ≡ some q)
      × (unpack_req_header q ≡ (h, reader 24 (enc_args args)))
unfolding request
request-arrives memory h args sized v l =
    let p =
      put_args-Puts (new_marshall memory) args (new_marshall-HasBuffer memory) (omega (arith, l)) in
    let m = p.result in
    let got = unpack-pack m h (ap length p.header ∙ sized) v in
    (message (pack_req_header m h), rw p.written refl, got ∙ ap (λ c. (h, reader 24 c)) p.content)

-- What a reader of a content gets.
args_read :
    (args : List Arg)
    → All FitsType args
    → length (enc_args args) ≤ 2 ^ 28
    → get_args (reader 24 (enc_args args)) (map kind args)
      ≡ some (args, reader (24 + length (enc_args args)) [])
args_read args f l =
    ap (λ b. get_args (reader 24 b) (map kind args)) (sym (append_nil (enc_args args)))
    ∙ get_args-enc_args 24 args [] f (omega (arith, l))

reply_read :
    (r : Arg)
    → FitsType r
    → length (enc_arg r) ≤ 2 ^ 28
    → get_arg (reader 24 (enc_arg r)) (kind r) ≡ some (r, reader (24 + length (enc_arg r)) [])
reply_read r f l =
    ap (λ b. get_arg (reader 24 b) (kind r)) (sym (append_nil (enc_arg r)))
    ∙ get_arg-enc_arg 24 r [] f (omega (arith, l))

reader_done : (n : ℕ) → okdone (reader n []) ≡ true
unfolding okdone
reader_done n = ground arith

-- The method's answer, which the condition bounds.
pub record Answers (meth : List Arg → ℕ × Arg) (args : List Arg) : Type 0 where
  pub no_failure : (meth args).0 < 2 ^ 31
  pub fits : FitsType (meth args).1
  pub short : length (enc_arg (meth args).1) ≤ 2 ^ 28

reply-arrives :
    (meth : List Arg → ℕ × Arg) (memory : Bytes) (xid : ℕ) (args : List Arg)
    → length memory ≡ 24
    → xid < 2 ^ 32
    → All FitsType args
    → length (enc_args args) ≤ 2 ^ 28
    → Answers meth args
    → (p : Bytes) × (serve meth (map kind args) memory xid (reader 24 (enc_args args)) ≡ some p)
      × (take_reply p
          ≡ some (record { xid = xid; ret = (meth args).0 }, reader 24 (enc_arg (meth args).1)))
unfolding serve run_method take_reply
reply-arrives meth memory xid args sized x f l a =
    let ret = (meth args).0 in
    let r = (meth args).1 in
    let p =
      put_arg-Puts (new_marshall memory) r (new_marshall-HasBuffer memory)
        (omega (arith, a.short)) in
    let m = p.result in
    let g : ReplyHeader = record { xid = xid; ret = ret } in
    let (un, tk) =
      unpack_reply_header-pack_reply_header m g (ap length p.header ∙ sized) x
        (omega (arith, a.no_failure)) in
    let pr = p.written in
    let ok : ltb ret (2 ^ 31) ≡ true = ground (arith, a.no_failure) in
    let same = ap (λ c. reader 24 c) p.content in
    (
      message (pack_reply_header m g),
      rw (args_read args f l, reader_done (24 + length (enc_args args)), pr, ok) refl,
      rw (un, tk, same) refl,
    )

-- A remote call returns what the method returns: the arguments reach it as they are and its result
-- comes back as it is. The conditions: the arguments and the result fit their types and take at most
-- 2 ^ 28 bytes, the method returns no negative number, and the header has words of 32 bits.
pub remote_call_lem :
    (meth : List Arg → ℕ × Arg) (sending replying : Bytes) (h : ReqHeader) (args : List Arg)
    → length sending ≡ 24
    → length replying ≡ 24
    → IsReqHeader h
    → All FitsType args
    → length (enc_args args) ≤ 2 ^ 28
    → Answers meth args
    → remote_call meth (map kind args) (kind (meth args).1) sending replying h args
      ≡ some ((meth args).0, some (meth args).1)
unfolding remote_call call_m
remote_call_lem meth sending replying h args s1 s2 v f l a =
    let (q, made, got) = request-arrives sending h args s1 v l in
    let (p, served, taken) = reply-arrives meth replying h.xid args s2 v.xid f l a in
    let ok : leb (2 ^ 31) (meth args).0 ≡ false = ground (arith, a.no_failure) in
    let back = reply_read (meth args).1 a.fits a.short in
    rw (made, got, served, taken, ok, back, reader_done (24 + length (enc_arg (meth args).1))) refl
