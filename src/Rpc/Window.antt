-- ===== src/Rpc/Window.antt =====
-- rpc/rpc.cc, class rpcs: the window of replies that makes a call happen at most once.
pub mod Covered
use cse_labs.Prelude.{
  ℕ, zero, suc, ◌+◌, ◌^◌, Bool, true, false, Option, none, some, List, [], ◌∷◌, arith, ltb, leb,
  ◌==◌, if◌then◌else◌, Bytes,
}

-- `reply_t`; the size is that of the bytes.
pub record Reply : Type 0 where
  pub xid : ℕ
  pub cb_present : Bool
  pub buf : Bytes

-- `rpcstate_t`, with the reply that comes with `DONE`.
pub data RpcState : Type 0 where
  new in_progress forgotten : RpcState
  done : Bytes → RpcState

unfoldable pub find_reply : List Reply → ℕ → Option Reply
find_reply [] xid = none
find_reply (r ∷ w) xid = let rest = find_reply w xid in if r.xid == xid then some r else rest

abbrev pub state_of : Reply → RpcState
state_of r = if r.cb_present then done r.buf else in_progress

-- `front().xid > xid`, of a window that may be empty.
unfoldable pub front_above : List Reply → ℕ → Bool
front_above [] xid = false
front_above (r ∷ w) xid = ltb xid r.xid

abbrev new_reply : ℕ → Reply
new_reply xid = record { xid = xid; cb_present = false; buf = [] }

-- Before the first larger number, else at the end.
unfoldable pub insert_reply : List Reply → ℕ → List Reply
insert_reply [] xid = new_reply xid ∷ []
insert_reply (r ∷ w) xid =
    let rest = insert_reply w xid in if ltb xid r.xid then new_reply xid ∷ r ∷ w else r ∷ rest

-- The replies before the first one with at least this number are dropped, or all of them.
unfoldable pub erase_below : List Reply → ℕ → List Reply
erase_below [] xid_rep = []
erase_below (r ∷ w) xid_rep =
    let rest = erase_below w xid_rep in if leb xid_rep r.xid then r ∷ w else rest

-- `checkduplicate_and_update` on the window of a client.
unfoldable pub check_window : List Reply → ℕ → ℕ → List Reply × RpcState
check_window w xid xid_rep = elim (find_reply w xid) [
  | some r ↦ (w, state_of r)
  | none ↦
      if front_above w xid then (w, forgotten) else (erase_below (insert_reply w xid) xid_rep, new)
]

-- `add_reply` on the window of a client.
unfoldable pub set_reply : List Reply → ℕ → Bytes → List Reply
set_reply [] xid b = []
set_reply (r ∷ w) xid b =
    let rest = set_reply w xid b in
    if r.xid == xid then record r { buf = b; cb_present = true } ∷ w else r ∷ rest
