-- ===== src/Rpc/Server.antt =====
-- rpc/rpc.cc, class rpcs: what `dispatch` does with a request before and after the handler of its
-- procedure. The connections are left out, and the bytes of a reply are an argument.
use cse_labs.Prelude.{
  ℕ, ◌-◌, ◌^◌, Bool, not, ◌&&◌, Option, none, some, List, [], ltb, ◌==◌, if◌then◌else◌, Bytes,
  nat_key, check,
}
use cse_labs.StdMap.{Map, lookup, insert}
use cse_labs.Rpc.Marshall.{ReqHeader, ReplyHeader}
use cse_labs.Rpc.Window.{
  Reply, RpcState, new, in_progress, forgotten, done, check_window, set_reply,
}

-- `rpc_const`, as the 32 bits of an `int`.
abbrev pub bind_failure : ℕ
bind_failure = 2 ^ 32 - 6

abbrev oldsrv_failure : ℕ
oldsrv_failure = 2 ^ 32 - 5

abbrev atmostonce_failure : ℕ
atmostonce_failure = 2 ^ 32 - 4

abbrev pub cancel_failure : ℕ
cancel_failure = 2 ^ 32 - 7

-- `procs_` tells which procedures have a handler.
pub record Server : Type 0 where
  pub nonce : ℕ
  pub procs : ℕ → Bool
  pub reply_window : Map ℕ (List Reply)

-- `reply_window_[clt_nonce]`, which is empty for a new client.
unfoldable pub window_of : Server → ℕ → List Reply
window_of s clt_nonce = elim (lookup clt_nonce s.reply_window) [ none ↦ [] | some w ↦ w ]

abbrev pub set_window : Server → ℕ → List Reply → Server
set_window s clt_nonce w = record s { reply_window = insert clt_nonce w s.reply_window }

unfoldable pub checkduplicate_and_update : Server → ℕ → ℕ → ℕ → Server × RpcState
checkduplicate_and_update s clt_nonce xid xid_rep =
    let (w, st) = check_window (window_of s clt_nonce) xid xid_rep in (set_window s clt_nonce w, st)

unfoldable pub add_reply : Server → ℕ → ℕ → Bytes → Server
add_reply s clt_nonce xid b = set_window s clt_nonce (set_reply (window_of s clt_nonce) xid b)

-- What the server does next: it runs the handler, sends a header alone, sends a stored reply, or
-- nothing.
pub data Action : Type 0 where
  run : Action
  refuse : ReplyHeader → Action
  resend : Bytes → Action
  silent : Action

unfoldable pub action_for : ReqHeader → RpcState → Action
action_for h new = run
action_for h in_progress = silent
action_for h (done b) = resend b
action_for h forgotten = refuse (record { xid = h.xid; ret = atmostonce_failure })

-- A client with the nonce 0 does not ask for at-most-once.
unfoldable pub classify : Server → ReqHeader → Server × RpcState
unfolding checkduplicate_and_update
classify s h =
    if h.clt_nonce == 0 then (s, new) else checkduplicate_and_update s h.clt_nonce h.xid h.xid_rep

-- `dispatch` up to the handler; a procedure without a handler fails a `VERIFY`.
unfoldable pub dispatch : Server → ReqHeader → Option (Server × Action)
dispatch s h =
    if not (h.srv_nonce == 0) && not (h.srv_nonce == s.nonce)
    then some (s, refuse (record { xid = h.xid; ret = oldsrv_failure }))
    else check (s.procs h.proc) (let (s', st) = classify s h in some (s', action_for h st))

-- `dispatch` from the handler on, which returned `ret` and the reply `b`: the reply is stored.
unfoldable pub finish : Server → ReqHeader → ℕ → Bytes → Option Server
finish s h ret b =
    check (ltb ret (2 ^ 31))
      (some (if h.clt_nonce == 0 then s else add_reply s h.clt_nonce h.xid b))
