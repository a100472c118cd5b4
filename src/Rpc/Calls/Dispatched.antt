-- ===== src/Rpc/Calls/Dispatched.antt =====
-- rpc/rpc.cc, class rpcs: a request, and a handler that returns, in the windows of the server.
use cse_labs.Prelude.{
  ℕ, ◌≤◌, ◌≡◌, ◌≢◌, ◌⊎◌, inl, inr, refl, ap, sym, subst, ◌∙◌, some, List, arith, ◌==◌,
  if◌then◌else◌, Bytes, nat_key, Bool-cases, not, ◌&&◌,
}
use cse_labs.StdMap.{lookup-insert}
use cse_labs.Rpc.Marshall.{ReqHeader}
use cse_labs.Rpc.Window.{Reply, RpcState, new, check_window, set_reply}
use cse_labs.Rpc.Window.Covered.{
  IsAscending, Covers, Checked, check_window-Checked, set_reply-IsAscending, set_reply-Covers,
}
use cse_labs.Rpc.Server.{
  Server, Action, run, window_of, set_window, classify, dispatch, finish, action_for, add_reply,
}

window_of-set_window :
    (s : Server) (n m : ℕ) (w : List Reply)
    → window_of (set_window s n w) m ≡ (if n == m then w else window_of s m)
unfolding window_of
window_of-set_window s n m w = ground (arith, lookup-insert n m w s.reply_window)

-- How a request of the client changes its window.
pub record Dispatched (w : List Reply) (xid : ℕ) (w' : List Reply) (a : Action) : Type 0 where
  pub ascending : IsAscending w'
  pub keeps : (x : ℕ) → Covers w x → Covers w' x
  pub covered : a ≡ run → Covers w' xid
  pub fresh : a ≡ run → Covers w xid → ⊥

action_for-run : (h : ReqHeader) (st : RpcState) → action_for h st ≡ run → st ≡ new
unfolding action_for
action_for-run h st e = ground (arith, e)

refused-Dispatched :
    (w : List Reply) (xid : ℕ) (a : Action) → IsAscending w → a ≢ run → Dispatched w xid w a
refused-Dispatched w xid a up ne = record {
  ascending = up;
  keeps = λ x c. c;
  covered = λ e. absurd (ne e);
  fresh = λ e _. ne e;
}

Checked-Dispatched :
    (h : ReqHeader) (w : List Reply) (r : List Reply × RpcState)
    → Checked w h.xid r
    → Dispatched w h.xid r.0 (action_for h r.1)
Checked-Dispatched h w r c = record {
  ascending = c.ascending;
  keeps = c.keeps;
  covered = λ _. c.covered;
  fresh = λ e. c.fresh (action_for-run h r.1 e);
}

dispatch_cases :
    (s : Server) (h : ReqHeader) {v : Server} {a : Action}
    → dispatch s h ≡ some (v, a)
    → ((v ≡ s) × (a ≢ run)) ⊎ ((v ≡ (classify s h).0) × (a ≡ action_for h (classify s h).1))
unfolding dispatch
dispatch_cases s h {v} {a} e =
    elim (Bool-cases (not (h.srv_nonce == 0) && not (h.srv_nonce == s.nonce))) [
      | inl p ↦ inl (ground (arith, e, p), λ q. ground (arith, e, p, q))
      | inr p ↦ inr (ground (arith, e, p), ground (arith, e, p))
    ]

classify_same :
    (s : Server) (h : ReqHeader)
    → h.clt_nonce ≢ 0
    → (classify s h ≡ (
      set_window s h.clt_nonce (check_window (window_of s h.clt_nonce) h.xid h.xid_rep).0,
      (check_window (window_of s h.clt_nonce) h.xid h.xid_rep).1,
    ))
unfolding classify
classify_same s h ne = ground (arith, ne)

classify_other :
    (s : Server) (h : ReqHeader) (n : ℕ)
    → h.clt_nonce ≢ n
    → window_of (classify s h).0 n ≡ window_of s n
unfolding classify
classify_other s h n ne =
    let w = (check_window (window_of s h.clt_nonce) h.xid h.xid_rep).0 in
    ground (arith, window_of-set_window s h.clt_nonce n w)

pub dispatch-Dispatched :
    (s : Server) (h : ReqHeader) {v : Server} {a : Action}
    → dispatch s h ≡ some (v, a)
    → h.clt_nonce ≢ 0
    → h.xid_rep ≤ h.xid
    → IsAscending (window_of s h.clt_nonce)
    → Dispatched (window_of s h.clt_nonce) h.xid (window_of v h.clt_nonce) a
dispatch-Dispatched s h {v} {a} e ne l up =
    let w = window_of s h.clt_nonce in
    elim (dispatch_cases s h e) [
      | inl (p, no_run) ↦
          subst (λ k. Dispatched w h.xid (window_of k h.clt_nonce) a) (sym p)
            (refused-Dispatched w h.xid a up no_run)
      | inr (p, q) ↦
          let r = check_window w h.xid h.xid_rep in
          let same = classify_same s h ne in
          let ew : window_of v h.clt_nonce ≡ r.0 =
            ap (λ k. window_of k h.clt_nonce) (p ∙ ap (λ k. k.0) same)
            ∙ (ground (arith, window_of-set_window s h.clt_nonce h.clt_nonce r.0)) in
          let ea : a ≡ action_for h r.1 = q ∙ ap (λ k. action_for h k.1) same in
          let d = Checked-Dispatched h w r (check_window-Checked w h.xid h.xid_rep up l) in
          subst (λ k. Dispatched w h.xid k a) (sym ew)
            (subst (λ k. Dispatched w h.xid r.0 k) (sym ea) d)
    ]

pub dispatch_other :
    (s : Server) (h : ReqHeader) (n : ℕ) {v : Server} {a : Action}
    → dispatch s h ≡ some (v, a)
    → h.clt_nonce ≢ n
    → window_of v n ≡ window_of s n
dispatch_other s h n e ne = elim (dispatch_cases s h e) [
  | inl (p, _) ↦ ap (λ k. window_of k n) p
  | inr (p, _) ↦ ap (λ k. window_of k n) p ∙ classify_other s h n ne
]

finish_cases :
    (s : Server) (h : ReqHeader) (ret : ℕ) (b : Bytes) {v : Server}
    → finish s h ret b ≡ some v
    → (v ≡ s) ⊎ (v ≡ add_reply s h.clt_nonce h.xid b)
unfolding finish
finish_cases s h ret b e = elim (Bool-cases (h.clt_nonce == 0)) [
  | inl p ↦ inl (ground (arith, e, p))
  | inr p ↦ inr (ground (arith, e, p))
]

-- A window after a change that keeps its order and what it covers.
pub record Keeps (w w' : List Reply) : Type 0 where
  pub ascending : IsAscending w → IsAscending w'
  pub covers : (x : ℕ) → Covers w x → Covers w' x

pub same-Keeps : {w w' : List Reply} → w' ≡ w → Keeps w w'
same-Keeps {w} e = subst (λ k. Keeps w k) (sym e) (record { ascending = λ a. a; covers = λ x c. c })

window_of-add_reply :
    (s : Server) (h : ReqHeader) (n : ℕ) (b : Bytes)
    → (window_of (add_reply s h.clt_nonce h.xid b) n
        ≡ (if h.clt_nonce == n then set_reply (window_of s h.clt_nonce) h.xid b else window_of s n))
unfolding add_reply
window_of-add_reply s h n b =
    window_of-set_window s h.clt_nonce n (set_reply (window_of s h.clt_nonce) h.xid b)

pub finish-Keeps :
    (s : Server) (h : ReqHeader) (ret : ℕ) (b : Bytes) (n : ℕ) {v : Server}
    → finish s h ret b ≡ some v
    → Keeps (window_of s n) (window_of v n)
finish-Keeps s h ret b n {v} e = elim (finish_cases s h ret b e) [
  | inl p ↦ same-Keeps (ap (λ k. window_of k n) p)
  | inr p ↦
      let w = window_of s h.clt_nonce in
      let at : window_of v n ≡ (if h.clt_nonce == n then set_reply w h.xid b else window_of s n) =
        ap (λ k. window_of k n) p ∙ window_of-add_reply s h n b in
      elim (Bool-cases (h.clt_nonce == n)) [
        | inr q ↦ same-Keeps (at ∙ (rw q refl))
        | inl q ↦
            let here : h.clt_nonce ≡ n = ground (arith, q) in
            let mine : window_of v n ≡ set_reply (window_of s n) h.xid b =
              at ∙ (rw q refl) ∙ ap (λ k. set_reply (window_of s k) h.xid b) here in
            subst (λ k. Keeps (window_of s n) k) (sym mine)
              (record {
                ascending = set_reply-IsAscending (window_of s n) h.xid b;
                covers = λ x. set_reply-Covers (window_of s n) h.xid x b;
              })
      ]
]
