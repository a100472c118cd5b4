-- ===== src/Rpc/Calls.antt =====
-- A client and the server over a network that loses, repeats and reorders messages, beside other
-- clients. `executed` are the numbers of the client's requests whose handler was run.
pub mod Dispatched
pub mod Invariant
pub mod AtMostOnce
mod Tests
use cse_labs.Prelude.{
  ℕ, zero, suc, ◌+◌, ◌%◌, ◌^◌, ◌<◌, ◌≤◌, ◌≡◌, ◌≢◌, ◌⊎◌, inl, inr, refl, ap, sym, subst, ◌∙◌, Bool,
  true, false, Option, none, some, List, [], ◌∷◌, arith, ◌==◌, if◌then◌else◌, Bytes, All, nat_key,
  Bool-cases, not, ◌&&◌, leb, ltb,
}
use cse_labs.StdMap.{lookup-insert, member, IsDistinct}
use cse_labs.Rpc.Marshall.{ReqHeader}
use cse_labs.Rpc.Window.{Reply, RpcState, new, check_window, set_reply}
use cse_labs.Rpc.Window.Covered.{
  IsAscending, Covers, Checked, check_window-Checked, set_reply-IsAscending, set_reply-Covers,
}
use cse_labs.Rpc.Server.{
  Server, Action, run, window_of, classify, dispatch, finish, action_for, add_reply,
}
use cse_labs.Rpc.Caller.{
  Client, Started, sends, new_client, front, update_xid_rep, call1_start, call1_end, got_pdu, bind,
}
use cse_labs.Rpc.Caller.Front.{IsHonest, update_xid_rep-IsHonest}

pub record System : Type 0 where
  pub client : Client
  pub server : Server
  pub sent : List ReqHeader
  pub executed : List ℕ

abbrev pub In : ReqHeader → List ReqHeader → Type 0
In h [] = ⊥
In h (g ∷ gs) = (h ≡ g) ⊎ In h gs

abbrev pub run_of : Action → ℕ → List ℕ → List ℕ
run_of run xid executed = xid ∷ executed
run_of _ xid executed = executed

pub data Step : System → System → Type 0 where
  -- A call begins; the numbers have not run out.
  start :
      (s : System) (proc : ℕ) (h : ReqHeader) (c : Client)
      → call1_start s.client proc ≡ (c, sends h)
      → s.client.xid + 1 < 2 ^ 32
      → Step s (record s { client = c; sent = h ∷ s.sent })
  -- A request arrives, for the first time or again.
  deliver :
      (s : System) (h : ReqHeader) (v : Server) (a : Action)
      → In h s.sent
      → dispatch s.server h ≡ some (v, a)
      → Step s (record s { server = v; executed = run_of a h.xid s.executed })
  -- A request of another client arrives.
  other :
      (s : System) (h : ReqHeader) (v : Server) (a : Action)
      → h.clt_nonce ≢ s.client.clt_nonce
      → dispatch s.server h ≡ some (v, a)
      → Step s (record s { server = v })
  -- A handler returns.
  return :
      (s : System) (h : ReqHeader) (ret : ℕ) (b : Bytes) (v : Server)
      → finish s.server h ret b ≡ some v
      → Step s (record s { server = v })
  -- A reply to a request of the client arrives; a call ends; the client is bound.
  receive :
      (s : System) (h : ReqHeader)
      → In h s.sent
      → Step s (record s { client = (got_pdu s.client h.xid).0 })
  end :
      (s : System) (h : ReqHeader)
      → In h s.sent
      → Step s (record s { client = call1_end s.client h.xid })
  bound : (s : System) (nonce : ℕ) → Step s (record s { client = bind s.client nonce })

abbrev pub initial : ℕ → Server → System
initial nonce v = record { client = new_client nonce; server = v; sent = []; executed = [] }

-- From a client with a nonce that the server has not seen.
pub data Reach (nonce : ℕ) : System → Type 0 where
  begin : (v : Server) → window_of v nonce ≡ [] → Reach nonce (initial nonce v)
  next : {s t : System} → Reach nonce s → Step s t → Reach nonce t
