-- ===== src/Rpc/Marshall.antt =====
-- rpc/marshall.h and the end of rpc/rpc.cc: values as bytes in network order. `none` is a write or a
-- read outside a buffer, or a capacity that does not fit an `int`.
pub mod Encode
pub mod RoundTrip
pub mod Header
pub mod Containers
mod Tests
use cse_labs.Prelude.{
  ℕ, zero, suc, ◌+◌, ◌-◌, ◌*◌, ◌/◌, ◌%◌, ◌^◌, Bool, true, false, not, ◌&&◌, Option, none, some,
  List, [], ◌∷◌, ◌++◌, arith, ltb, leb, ◌==◌, if◌then◌else◌, Bytes, length, take, drop, ◌>>=◌,
  check,
}

-- `RPC_HEADER_SZ`: five words of `req_header` behind the size of the message; the checksum is not
-- compiled in.
abbrev rpc_header_sz : ℕ
rpc_header_sz = 24

abbrev default_rpc_sz : ℕ
default_rpc_sz = 1024

-- `_buf` up to `_ind` is the header and the content behind it.
pub record Marshall : Type 0 where
  pub header : Bytes
  pub content : Bytes
  pub capa : ℕ

-- `_ind`, the size of the message.
abbrev pub ind : Marshall → ℕ
ind m = rpc_header_sz + length m.content

-- `marshall::marshall`, with what the new memory holds.
abbrev pub new_marshall : Bytes → Marshall
new_marshall memory = record { header = memory; content = []; capa = default_rpc_sz }

unfoldable pub rawbyte : Marshall → ℕ → Option Marshall
rawbyte m x =
    let capa = if leb m.capa (ind m) then m.capa * 2 else m.capa in
    check (ltb capa (2 ^ 31) && ltb (ind m) capa)
      (some (record m { content = m.content ++ (x % 256) ∷ []; capa = capa }))

-- `rawbytes(p, n)`: where the capacity is too small it is doubled, or grows by `n`.
unfoldable pub rawbytes : Marshall → Bytes → Option Marshall
rawbytes m p =
    let n = length p in
    let capa =
      if ltb m.capa (ind m + n)
      then (if ltb n m.capa then 2 * m.capa else m.capa + n)
      else m.capa in
    check (ltb capa (2 ^ 31) && leb (ind m + n) capa)
      (some (record m { content = m.content ++ p; capa = capa }))

-- `operator<<` for each type; the signed types go by the unsigned ones of their width.
unfoldable pub put_bool : Marshall → Bool → Option Marshall
put_bool m x = rawbyte m (if x then 1 else 0)

unfoldable pub put_u16 : Marshall → ℕ → Option Marshall
put_u16 m x = do m1 ← rawbyte m (x / 0x100 % 256); rawbyte m1 (x % 256)

unfoldable pub put_u32 : Marshall → ℕ → Option Marshall
put_u32 m x = do
  m1 ← rawbyte m (x / 0x1000000 % 256)
  m2 ← rawbyte m1 (x / 0x10000 % 256)
  m3 ← rawbyte m2 (x / 0x100 % 256)
  rawbyte m3 (x % 256)

unfoldable pub put_u64 : Marshall → ℕ → Option Marshall
put_u64 m x = do m1 ← put_u32 m (x / 2 ^ 32 % 2 ^ 32); put_u32 m1 (x % 2 ^ 32)

unfoldable pub put_text : Marshall → Bytes → Option Marshall
put_text m s = do m1 ← put_u32 m (length s % 2 ^ 32); rawbytes m1 s

-- `take_buf`: the bytes of a message.
abbrev pub message : Marshall → Bytes
message m = m.header ++ m.content

-- What stands from `_ind` on, and how much stands before it.
pub record Unmarshall : Type 0 where
  pub ind : ℕ
  pub rest : Bytes
  pub ok : Bool

-- `_sz`
abbrev pub size : Unmarshall → ℕ
size u = u.ind + length u.rest

-- `char c` returned as an `unsigned int`: the sign is extended.
unfoldable pub char_to_u32 : ℕ → ℕ
char_to_u32 c = if ltb c 128 then c else c + 2 ^ 32 - 256

unfoldable pub next_byte : Unmarshall → Bytes → ℕ × Unmarshall
unfolding char_to_u32
next_byte u [] = (0, record u { ok = false })
next_byte u (c ∷ rest) = (char_to_u32 c, record u { ind = u.ind + 1; rest = rest })

unfoldable pub get_rawbyte : Unmarshall → ℕ × Unmarshall
unfolding next_byte
get_rawbyte u = next_byte u u.rest

-- The sum `_ind + n` is taken in 32 bits. Where it wraps around, the test lets a length pass that
-- the buffer does not have.
unfoldable pub get_rawbytes : Unmarshall → ℕ → Bytes → Option (Bytes × Unmarshall)
get_rawbytes u n s =
    if ltb (size u) ((u.ind + n) % 2 ^ 32)
    then some (s, record u { ok = false })
    else check (leb n (length u.rest))
        (some (take n u.rest, record u { ind = u.ind + n; rest = drop n u.rest }))

-- `operator>>` for each type. The bits that `|=` joins are apart, so it is a sum.
unfoldable pub get_bool : Unmarshall → Bool × Unmarshall
get_bool u = let (c, u1) = get_rawbyte u in (not (c == 0), u1)

unfoldable pub get_u8 : Unmarshall → ℕ × Unmarshall
get_u8 u = let (c, u1) = get_rawbyte u in (c % 256, u1)

unfoldable pub get_u16 : Unmarshall → ℕ × Unmarshall
get_u16 u =
    let (a, u1) = get_rawbyte u in let (b, u2) = get_rawbyte u1 in (a % 256 * 0x100 + b % 256, u2)

unfoldable pub get_u32 : Unmarshall → ℕ × Unmarshall
get_u32 u =
    let (a, u1) = get_rawbyte u in
    let (b, u2) = get_rawbyte u1 in
    let (c, u3) = get_rawbyte u2 in
    let (d, u4) = get_rawbyte u3 in
    (a % 256 * 0x1000000 + b % 256 * 0x10000 + c % 256 * 0x100 + d % 256, u4)

unfoldable pub get_u64 : Unmarshall → ℕ × Unmarshall
get_u64 u = let (h, u1) = get_u32 u in let (l, u2) = get_u32 u1 in (l + h * 2 ^ 32, u2)

-- Into the string `s` that the caller has.
unfoldable pub get_text : Unmarshall → Bytes → Option (Bytes × Unmarshall)
get_text u s = let (n, u1) = get_u32 u in if u1.ok then get_rawbytes u1 n s else some (s, u1)

unfoldable pub okdone : Unmarshall → Bool
okdone u = u.ok && u.ind == size u

-- `take_in` of a message that was received: the buffer is read behind its header.
unfoldable pub take_in : Bytes → Unmarshall
take_in buf = record {
  ind = rpc_header_sz;
  rest = drop rpc_header_sz buf;
  ok = leb rpc_header_sz (length buf);
}

-- The arguments of a call: C++ picks the operator by the type.
pub data Arg : Type 0 where
  bool : Bool → Arg
  u8 u16 u32 u64 : ℕ → Arg
  text : Bytes → Arg

unfoldable pub put_arg : Marshall → Arg → Option Marshall
put_arg m (bool x) = put_bool m x
put_arg m (u8 x) = rawbyte m x
put_arg m (u16 x) = put_u16 m x
put_arg m (u32 x) = put_u32 m x
put_arg m (u64 x) = put_u64 m x
put_arg m (text s) = put_text m s

-- `m << a1; m << a2; …` of `rpcc::call`
unfoldable pub put_args : Marshall → List Arg → Option Marshall
put_args m [] = some m
put_args m (a ∷ as') = put_arg m a >>= λ m1. put_args m1 as'

pub data Kind : Type 0 where
  a_bool a_u8 a_u16 a_u32 a_u64 a_text : Kind

abbrev pub kind : Arg → Kind
kind (bool x) = a_bool
kind (u8 x) = a_u8
kind (u16 x) = a_u16
kind (u32 x) = a_u32
kind (u64 x) = a_u64
kind (text s) = a_text

-- A new variable of a type is read; a new string is empty.
unfoldable pub get_arg : Unmarshall → Kind → Option (Arg × Unmarshall)
get_arg u a_bool = let (v, u1) = get_bool u in some (bool v, u1)
get_arg u a_u8 = let (v, u1) = get_u8 u in some (u8 v, u1)
get_arg u a_u16 = let (v, u1) = get_u16 u in some (u16 v, u1)
get_arg u a_u32 = let (v, u1) = get_u32 u in some (u32 v, u1)
get_arg u a_u64 = let (v, u1) = get_u64 u in some (u64 v, u1)
get_arg u a_text = get_text u [] >>= λ (v, u1). some (text v, u1)

-- `args >> a1; args >> a2; …` of a handler
unfoldable pub get_args : Unmarshall → List Kind → Option (List Arg × Unmarshall)
get_args u [] = some ([], u)
get_args u (k ∷ ks) = do (v, u1) ← get_arg u k; (vs, u2) ← get_args u1 ks; some (v ∷ vs, u2)

-- `pack`, four bytes at `_ind`; `unpack` from there.
unfoldable pub packed : ℕ → Bytes
packed x = (x / 0x1000000 % 256) ∷ (x / 0x10000 % 256) ∷ (x / 0x100 % 256) ∷ (x % 256) ∷ []

unfoldable pub unpack : Unmarshall → ℕ × Unmarshall
unfolding get_u32
unpack u = get_u32 u

-- `req_header` and `reply_header`; an `int` is its 32 bits.
pub record ReqHeader : Type 0 where
  pub xid : ℕ
  pub proc : ℕ
  pub clt_nonce : ℕ
  pub srv_nonce : ℕ
  pub xid_rep : ℕ

pub record ReplyHeader : Type 0 where
  pub xid : ℕ
  pub ret : ℕ

-- The first four bytes are left for the size of the message.
unfoldable pub pack_req_header : Marshall → ReqHeader → Marshall
pack_req_header m h = record m {
  header =
      take 4 m.header
      ++ packed h.xid
      ++ packed h.proc
      ++ packed h.clt_nonce
      ++ packed h.srv_nonce
      ++ packed h.xid_rep;
}

unfoldable pub pack_reply_header : Marshall → ReplyHeader → Marshall
pack_reply_header m h = record m {
  header = take 4 m.header ++ packed h.xid ++ packed h.ret ++ drop 12 m.header;
}

-- A received message, read from its fifth byte; then the reader stands behind the header.
abbrev pub received : Bytes → ℕ → Bool → Unmarshall
received buf i good = record { ind = i; rest = drop i buf; ok = good }

unfoldable pub unpack_req_header : Bytes → ReqHeader × Unmarshall
unpack_req_header buf =
    let (xid, u1) = unpack (received buf 4 true) in
    let (proc, u2) = unpack u1 in
    let (clt_nonce, u3) = unpack u2 in
    let (srv_nonce, u4) = unpack u3 in
    let (xid_rep, u5) = unpack u4 in
    (
      record {
        xid = xid;
        proc = proc;
        clt_nonce = clt_nonce;
        srv_nonce = srv_nonce;
        xid_rep = xid_rep;
      },
      received buf rpc_header_sz u5.ok,
    )

unfoldable pub unpack_reply_header : Bytes → ReplyHeader × Unmarshall
unpack_reply_header buf =
    let (xid, u1) = unpack (received buf 4 true) in
    let (ret, u2) = unpack u1 in (record { xid = xid; ret = ret }, received buf rpc_header_sz u2.ok)
