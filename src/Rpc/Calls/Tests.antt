-- ===== src/Rpc/Calls/Tests.antt =====
-- A client that binds itself, over a network that repeats its request.
use cse_labs.Prelude.{ℕ, ◌<◌, inl, refl, true, false, [], ◌∷◌, arith, nat_key}
use cse_labs.StdMap.{IsDistinct, lookup, insert, add}
use cse_labs.Rpc.Marshall.{ReqHeader}
use cse_labs.Rpc.Window.{check_window, find_reply, front_above, insert_reply, erase_below}
use cse_labs.Rpc.Server.{
  Server, run, silent, window_of, dispatch, classify, checkduplicate_and_update, action_for,
}
use cse_labs.Rpc.Caller.{new_client, call1_start, front, update_xid_rep}
use cse_labs.Rpc.Caller.Front.{IsHonest, update_xid_rep-IsHonest}
use cse_labs.Rpc.Calls.{System, start, deliver, Reach, begin, next, initial}
use cse_labs.Rpc.Calls.AtMostOnce.{at_most_once}

abbrev server : Server
server = record { nonce = 9; procs = λ p. true; reply_window = [] }

abbrev bind_request : ReqHeader
bind_request = record { xid = 1; proc = 1; clt_nonce = 7; srv_nonce = 0; xid_rep = 0 }

abbrev sent_system : System
sent_system = record {
  client = record (new_client 7) { xid = 2; calls = 1 ∷ [] };
  server = server;
  sent = bind_request ∷ [];
  executed = [];
}

abbrev server_1 : Server
server_1 = record server {
  reply_window = (7, record { xid = 1; cb_present = false; buf = [] } ∷ []) ∷ [];
}

abbrev run_system : System
run_system = record sent_system { server = server_1; executed = 1 ∷ [] }

sent_Reach : Reach 7 sent_system
unfolding window_of call1_start front lookup add
sent_Reach = next (begin server refl) (
    start (initial 7 server) 1 bind_request (record (new_client 7) { xid = 2; calls = 1 ∷ [] }) refl
      (omega arith))

run_Reach : Reach 7 run_system
unfolding dispatch classify checkduplicate_and_update window_of check_window insert action_for
    find_reply lookup front_above erase_below insert_reply
run_Reach = next sent_Reach (deliver sent_system bind_request server_1 run (inl refl) refl)

again_Reach : Reach 7 run_system
unfolding dispatch classify checkduplicate_and_update window_of check_window insert action_for
    find_reply lookup
again_Reach = next run_Reach (deliver run_system bind_request server_1 silent (inl refl) refl)

at_most_once_example : IsDistinct (run_system.executed)
at_most_once_example = at_most_once 7 (omega arith) again_Reach

abbrev Small : ℕ → Type 0
Small z = z < 8

update_xid_rep-IsHonest_example : IsHonest Small (update_xid_rep (3 ∷ 5 ∷ 6 ∷ []) 4)
unfolding front
update_xid_rep-IsHonest_example =
    update_xid_rep-IsHonest Small (3 ∷ 5 ∷ 6 ∷ []) 4
      (record {
        sorted = (omega arith, (omega arith, tt));
        acked = (omega arith, (omega arith, (omega arith, tt)));
        below = λ z l. omega (arith, l);
      })
      (omega arith)
