-- ===== src/Rpc/Calls/AtMostOnce.antt =====
-- rpc/rpc.cc: how often the server runs the handler of a client's call.
use cse_labs.Prelude.{
  ℕ, ◌+◌, ◌^◌, ◌<◌, ◌≡◌, ◌≢◌, refl, sym, subst, ◌∙◌, [], ◌∷◌, arith, All, nat_key,
}
use cse_labs.StdMap.{IsDistinct}
use cse_labs.Rpc.Marshall.{ReqHeader}
use cse_labs.Rpc.Window.Covered.{IsAscending, Covers}
use cse_labs.Rpc.Server.{Server, Action, run, refuse, resend, silent, window_of}
use cse_labs.Rpc.Caller.{
  Client, sends, front, update_xid_rep, call1_start, call1_end, got_pdu, bind,
}
use cse_labs.Rpc.Caller.Front.{IsHonest, update_xid_rep-IsHonest}
use cse_labs.Rpc.Calls.{
  System, run_of, Step, start, deliver, other, return, receive, end, bound, Reach, begin, next,
  initial,
}
use cse_labs.Rpc.Calls.Dispatched.{
  Dispatched, dispatch-Dispatched, dispatch_other, Keeps, same-Keeps, finish-Keeps,
}
use cse_labs.Rpc.Calls.Invariant.{
  Sent, Inv, All-In, All-mono, not_executed, IsHonest-mono, call1_start_sends,
}

begin-Inv : (n : ℕ) (v : Server) → window_of v n ≡ [] → Inv n (initial n v)
begin-Inv n v e = record {
  named = refl;
  sent = tt;
  honest = record {
    sorted = tt;
    acked = (omega arith, tt);
    below = λ z l. unfold front in omega (arith, l);
  };
  ascending = subst IsAscending (sym e) tt;
  covered = tt;
  distinct = tt;
}

start-Inv :
    (n : ℕ) (s : System) (proc : ℕ) (h : ReqHeader) (c : Client)
    → call1_start s.client proc ≡ (c, sends h)
    → s.client.xid + 1 < 2 ^ 32
    → Inv n s
    → Inv n (record s { client = c; sent = h ∷ s.sent })
start-Inv n s proc h c e l i =
    let (ex, en, ew, hx, hn, hr) = call1_start_sends s.client proc e l in
    let top : s.client.xid < c.xid = omega (arith, ex) in
    let below : front s.client.xid_rep_window < s.client.xid =
      i.honest.below (front s.client.xid_rep_window) (omega arith) in
    record {
      named = en ∙ i.named;
      sent = (
        (omega (arith, hx, hr, below), omega (arith, hx, top), hn ∙ i.named),
        All-mono (Sent n s.client.xid) (Sent n c.xid) s.sent
            (λ g q. (q.0, omega (arith, q.1, top), q.2)) i.sent,
      );
      honest = subst (IsHonest (λ z. z < c.xid)) (sym ew) (
          IsHonest-mono (λ z. z < s.client.xid) (λ z. z < c.xid) s.client.xid_rep_window
            (λ z q. omega (arith, q, top)) i.honest);
      ascending = i.ascending;
      covered = i.covered;
      distinct = i.distinct;
    }

-- A step changes the client's window by an acknowledged number, or not at all.
client-Inv :
    (n : ℕ) (s : System) (c : Client) (x : ℕ)
    → c.xid ≡ s.client.xid
    → c.clt_nonce ≡ s.client.clt_nonce
    → c.xid_rep_window ≡ update_xid_rep s.client.xid_rep_window x
    → x < s.client.xid
    → Inv n s
    → Inv n (record s { client = c })
client-Inv n s c x ex en ew l i =
    let more =
      update_xid_rep-IsHonest (λ z. z < s.client.xid) s.client.xid_rep_window x i.honest l in
    record {
      named = en ∙ i.named;
      sent = subst (λ k. All (Sent n k) s.sent) (sym ex) i.sent;
      honest =
          subst (λ k. IsHonest (λ z. z < k) c.xid_rep_window) (sym ex)
            (subst (IsHonest (λ z. z < s.client.xid)) (sym ew) more);
      ascending = i.ascending;
      covered = i.covered;
      distinct = i.distinct;
    }

-- A step changes the client's window on the server without uncovering a number.
server-Inv :
    (n : ℕ) (s : System) (v : Server)
    → Keeps (window_of s.server n) (window_of v n)
    → Inv n s
    → Inv n (record s { server = v })
server-Inv n s v k i = record {
  named = i.named;
  sent = i.sent;
  honest = i.honest;
  ascending = k.ascending i.ascending;
  covered =
      All-mono (Covers (window_of s.server n)) (Covers (window_of v n)) s.executed k.covers
        i.covered;
  distinct = i.distinct;
}

run_of-Inv :
    (n : ℕ) (s : System) (v : Server) (a : Action) (x : ℕ)
    → Dispatched (window_of s.server n) x (window_of v n) a
    → Inv n s
    → Inv n (record s { server = v; executed = run_of a x s.executed })
run_of-Inv n s v run x d i =
    let old = server-Inv n s v (record { ascending = λ _. d.ascending; covers = d.keeps }) i in
    record {
      named = i.named;
      sent = i.sent;
      honest = i.honest;
      ascending = d.ascending;
      covered = (d.covered refl, old.covered);
      distinct =
          (not_executed (window_of s.server n) x s.executed i.covered (d.fresh refl), i.distinct);
    }
run_of-Inv n s v (refuse g) x d i =
    server-Inv n s v (record { ascending = λ _. d.ascending; covers = d.keeps }) i
run_of-Inv n s v (resend b) x d i =
    server-Inv n s v (record { ascending = λ _. d.ascending; covers = d.keeps }) i
run_of-Inv n s v silent x d i =
    server-Inv n s v (record { ascending = λ _. d.ascending; covers = d.keeps }) i

Step-Inv : (n : ℕ) → n ≢ 0 → {s t : System} → Step s t → Inv n s → Inv n t
unfolding got_pdu call1_end bind
Step-Inv n ne (start s proc h c e l) i = start-Inv n s proc h c e l i
Step-Inv n ne (deliver s h v a m e) i =
    let q = All-In (Sent n s.client.xid) s.sent i.sent m in
    let named : h.clt_nonce ≡ n = q.2 in
    let up = subst (λ k. IsAscending (window_of s.server k)) (sym named) i.ascending in
    let d =
      dispatch-Dispatched s.server h e (subst (λ k. k ≢ 0) (sym named) ne) (omega (arith, q.0))
        up in
    run_of-Inv n s v a h.xid
      (subst (λ k. Dispatched (window_of s.server k) h.xid (window_of v k) a) named d) i
Step-Inv n ne (other s h v a d e) i =
    server-Inv n s v
      (same-Keeps (dispatch_other s.server h n e (subst (λ k. h.clt_nonce ≢ k) i.named d))) i
Step-Inv n ne (return s h ret b v e) i = server-Inv n s v (finish-Keeps s.server h ret b n e) i
Step-Inv n ne (receive s h m) i =
    client-Inv n s (got_pdu s.client h.xid).0 h.xid refl refl refl
      (All-In (Sent n s.client.xid) s.sent i.sent m).1 i
Step-Inv n ne (end s h m) i =
    client-Inv n s (call1_end s.client h.xid) h.xid refl refl refl
      (All-In (Sent n s.client.xid) s.sent i.sent m).1 i
Step-Inv n ne (bound s nonce) i = record {
  named = i.named;
  sent = i.sent;
  honest = i.honest;
  ascending = i.ascending;
  covered = i.covered;
  distinct = i.distinct;
}

Reach-Inv : (n : ℕ) → n ≢ 0 → {s : System} → Reach n s → Inv n s
Reach-Inv n ne (begin v e) = begin-Inv n v e
Reach-Inv n ne (next r m) = Step-Inv n ne m (Reach-Inv n ne r)

-- At most once: whatever the network loses, repeats and reorders, and whatever the other clients do,
-- the server runs the handler of each request of a client at most once, if the client has a nonce
-- that is not 0 and that the server did not know, and makes fewer than 2 ^ 32 - 2 calls.
pub at_most_once : (n : ℕ) → n ≢ 0 → {s : System} → Reach n s → IsDistinct s.executed
at_most_once n ne r = (Reach-Inv n ne r).distinct
