-- ===== src/Rpc/Stubs.antt =====
-- rpc/rpc.h: `rpcc::call` and `rpcs::reg`, which every call of the program goes through. The types of
-- a call's arguments and of its reply are those of `Arg`.
pub mod Remote
pub mod Missing
mod Tests
use cse_labs.Prelude.{
  ℕ, ◌-◌, ◌^◌, Bool, true, false, Option, none, some, List, [], ltb, leb, if◌then◌else◌, Bytes,
  ◌>>=◌, check,
}
use cse_labs.Rpc.Marshall.{
  Marshall, new_marshall, message, put_arg, put_args, Unmarshall, take_in, okdone, Arg, Kind,
  get_arg, get_args, ReqHeader, ReplyHeader, pack_req_header, pack_reply_header,
  unpack_reply_header,
}

-- `unmarshal_args_failure`, as the 32 bits of an `int`.
abbrev unmarshal_args_failure : ℕ
unmarshal_args_failure = 2 ^ 32 - 2

-- `call` with the arguments: the message that `call1` sends.
unfoldable pub request : Bytes → ReqHeader → List Arg → Option Bytes
request memory h args = do
  m ← put_args (new_marshall memory) args
  some (message (pack_req_header m h))

-- `h1::fn`, the handler of a method: what the method returns, and the message with its result.
unfoldable pub run_method :
    (List Arg → ℕ × Arg) → List Kind → Unmarshall → Marshall → Option (ℕ × Marshall)
run_method meth kinds u ret = do
  (args, u1) ← get_args u kinds
  if okdone u1
      then (do ret1 ← put_arg ret (meth args).1; some ((meth args).0, ret1))
      else some (unmarshal_args_failure, ret)

-- `dispatch` at a new request: the reply's message.
unfoldable pub serve : (List Arg → ℕ × Arg) → List Kind → Bytes → ℕ → Unmarshall → Option Bytes
unfolding run_method
serve meth kinds memory xid u = do
  (ret, rep) ← run_method meth kinds u (new_marshall memory)
  check (ltb ret (2 ^ 31))
      (some (message (pack_reply_header rep (record { xid = xid; ret = ret }))))

-- `got_pdu`: the header of the reply and the reader of its content; `none` where the message is
-- dropped.
unfoldable pub take_reply : Bytes → Option (ReplyHeader × Unmarshall)
take_reply b = let (h, u) = unpack_reply_header b in if u.ok then some (h, take_in b) else none

-- `call_m`, after `call1` has returned: the reply is read when the number says no failure.
unfoldable pub call_m : ℕ → Unmarshall → Kind → Option (ℕ × Option Arg)
call_m intret u k =
    if leb (2 ^ 31) intret
    then some (intret, none)
    else get_arg u k >>= λ (r, u1). check (okdone u1) (some (intret, some r))
