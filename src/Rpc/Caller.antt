-- ===== src/Rpc/Caller.antt =====
-- rpc/rpc.cc, class rpcc: the window of the numbers whose replies the client has, whose front it
-- sends along with each request.
pub mod Front
use cse_labs.Prelude.{
  ℕ, zero, suc, ◌+◌, ◌%◌, ◌^◌, Bool, true, false, Option, none, some, List, [], ◌∷◌, ◌++◌, arith,
  ltb, leb, ◌==◌, if◌then◌else◌, not, ◌&&◌, ◌||◌, nat_key,
}
use cse_labs.StdMap.{member, add}
use cse_labs.Rpc.Marshall.{ReqHeader}
use cse_labs.Rpc.Server.{bind_failure, cancel_failure}

-- Before the first larger number, else at the end.
unfoldable pub insert_xid : ℕ → List ℕ → List ℕ
insert_xid xid [] = xid ∷ []
insert_xid xid (x ∷ w) = let rest = insert_xid xid w in if ltb xid x then xid ∷ x ∷ w else x ∷ rest

-- `while (front() + 1 == *it) pop_front()`, on what stands before `it`; the number at `it` is not the
-- one behind itself, so the loop ends there at the latest.
unfoldable pub pop_while : List ℕ → ℕ → List ℕ
pop_while [] y = []
pop_while (x ∷ w) y = let rest = pop_while w y in if (x + 1) % 2 ^ 32 == y then rest else x ∷ w

-- The loop of `it` over the rest of the window.
unfoldable pub compress : List ℕ → List ℕ → List ℕ
unfolding pop_while
compress before [] = before
compress before (y ∷ rest) = compress (pop_while before y ++ y ∷ []) rest

unfoldable pub update_xid_rep : List ℕ → ℕ → List ℕ
unfolding compress insert_xid
update_xid_rep [] xid = []
update_xid_rep (x ∷ w) xid =
    if leb xid x
    then x ∷ w
    else elim (insert_xid xid (x ∷ w)) [ [] ↦ [] | y ∷ ys ↦ compress (y ∷ []) ys ]

-- `xid_rep_window_.front()`
unfoldable pub front : List ℕ → ℕ
front [] = 0
front (x ∷ w) = x

-- class rpcc; `calls` are the keys of `calls_`.
pub record Client : Type 0 where
  pub clt_nonce : ℕ
  pub srv_nonce : ℕ
  pub bind_done : Bool
  pub destroy_wait : Bool
  pub xid : ℕ
  pub calls : List ℕ
  pub xid_rep_window : List ℕ

-- `rpcc::rpcc` of a client that asks for at-most-once, with the nonce that it drew.
abbrev pub new_client : ℕ → Client
new_client nonce = record {
  clt_nonce = nonce;
  srv_nonce = 0;
  bind_done = false;
  destroy_wait = false;
  xid = 1;
  calls = [];
  xid_rep_window = 0 ∷ [];
}

-- `rpc_const::bind`
abbrev pub bind_proc : ℕ
bind_proc = 1

pub data Started : Type 0 where
  failed : ℕ → Started
  sends : ReqHeader → Started

-- The first part of `call1`, under its mutex: a new number and the header of the request.
unfoldable pub call1_start : Client → ℕ → Client × Started
call1_start c proc =
    if (not (proc == bind_proc) && not c.bind_done) || (proc == bind_proc && c.bind_done)
    then (c, failed bind_failure)
    else if c.destroy_wait
    then (c, failed cancel_failure)
    else (
      record c { xid = (c.xid + 1) % 2 ^ 32; calls = add c.xid c.calls },
      sends (record {
        xid = c.xid;
        proc = proc;
        clt_nonce = c.clt_nonce;
        srv_nonce = c.srv_nonce;
        xid_rep = front c.xid_rep_window;
      }),
    )

-- `calls_.erase`
unfoldable pub remove : ℕ → List ℕ → List ℕ
remove xid [] = []
remove xid (x ∷ xs) = let rest = remove xid xs in if x == xid then rest else x ∷ rest

-- The end of `call1`, after a reply or a timeout.
unfoldable pub call1_end : Client → ℕ → Client
call1_end c xid = record c {
  calls = remove xid c.calls;
  xid_rep_window = update_xid_rep c.xid_rep_window xid;
}

-- `got_pdu`, with whether a call waits for the reply.
unfoldable pub got_pdu : Client → ℕ → Client × Bool
got_pdu c xid =
    (record c { xid_rep_window = update_xid_rep c.xid_rep_window xid }, member xid c.calls)

-- `bind`, when its call has returned the server's nonce.
unfoldable pub bind : Client → ℕ → Client
bind c r = record c { bind_done = true; srv_nonce = r }
