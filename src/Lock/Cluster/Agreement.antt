-- ===== src/Lock/Cluster/Agreement.antt =====
-- lock_server_cache.cc and lock_client_cache.cc: what the server has of a client and what it does.
use cse_labs.Prelude.{
  ◌≡◌, ◌≢◌, ◌⊎◌, inl, inr, refl, ap, sym, subst, ◌∙◌, true, some, List, [], ◌∷◌, ◌++◌, arith, Bytes,
  bytes_eq, bytes_eq_iff, bytes_eq_refl, Bool-cases,
}
use cse_labs.Lock.Protocol.{ok}
use cse_labs.Lock.Cache.{LockInfo, Reply, Callback, no_call, revoke_call, retry_call, acquire_info}
use cse_labs.Lock.Cache.Invariant.{IsValid}
use cse_labs.Lock.Client.{State, acquiring, releasing, calling, Thread}
use cse_labs.Lock.Client.Shape.{Shape, leaving-releasing}
use cse_labs.Lock.Client.Turns.{IsFine, calling-acquiring}
use cse_labs.Lock.Cluster.{
  Link, acquire_answered, Node, Cluster, CallsAcquire, CallsRelease, answer, sent, served,
}
use cse_labs.Lock.Cluster.Roles.{
  Role, away, kept, revoked, waits, asked, Plays, NotFor, Apart, Beside, acquire_info-away,
  acquire_info-asked,
}
use cse_labs.Lock.Cluster.Phases.{
  Phase, InPhase, first_point, granted-Phase, told_to_wait-Phase, called_back-Phase,
  asked_again-Phase, calls_acquire-role, calls_release-role,
}
use cse_labs.Lock.Cluster.Steps.{at_front}

-- What the server has of a client fits what the client does.
abbrev pub Agrees : LockInfo → Bytes → Node → Type 0
Agrees i c n = (role : Role) × Plays role i c × InPhase role n.client n.wire

revoking-releasing : (s : State) (ts : List Thread) → Shape s true ts → s ≡ releasing
revoking-releasing releasing ts h = refl
revoking-releasing _ ts h = absurd (ground (arith, h))

-- A client whose acquire is on its way.
pub CallsAcquire-acquiring :
    (role : Role) (n : Node)
    → IsFine n.client
    → InPhase role n.client n.wire
    → CallsAcquire n
    → (n.client.info.stat ≡ acquiring)
      × (first_point n.client.info.threads ≡ some calling)
      × ((role ≡ away) ⊎ (role ≡ asked))
CallsAcquire-acquiring role n f h (l, (before, t, after, e, p)) =
    let (first, at, h1) = at_front role n.client n.wire before t after f e (ground (arith, p)) h in
    let st = calling-acquiring n.client.info.stat n.client.owned n.client.revoking t after at p in
    (
      st,
      ap first_point (e ∙ ap (λ b. b ++ t ∷ after) first) ∙ ap some p,
      calls_acquire-role role n.client.info.msg n.client.revoking n.wire.link n.wire.revokes
          n.wire.retries l (rw (st, p) at h1),
    )

pub CallsRelease-releasing :
    (role : Role) (n : Node)
    → IsFine n.client
    → InPhase role n.client n.wire
    → CallsRelease n
    → (n.client.info.stat ≡ releasing) × (role ≡ revoked)
CallsRelease-releasing role n f h (l, inl (before, t, after, e, p)) =
    let (first, at, h1) = at_front role n.client n.wire before t after f e (ground (arith, p)) h in
    let (st, rv) =
      leaving-releasing n.client.info.stat n.client.owned n.client.revoking t after at p in
    (
      st,
      calls_release-role role n.client.info.msg (some t.point) n.client.revoking n.wire.link
          n.wire.revokes n.wire.retries l (rw st at h1),
    )
CallsRelease-releasing role n f h (l, inr e) =
    let st = revoking-releasing n.client.info.stat n.client.info.threads (rw e at f.shape) in
    (
      st,
      calls_release-role role n.client.info.msg (first_point n.client.info.threads)
          n.client.revoking n.wire.link n.wire.revokes n.wire.retries l (rw st at h),
    )

sent-NotFor : (k : Callback) (d : Bytes) (n : Node) → NotFor k d → sent k d n ≡ n
sent-NotFor no_call d n h = refl
sent-NotFor (revoke_call c) d n h = ground (arith, bytes_eq_iff c d)
sent-NotFor (retry_call c) d n h = ground (arith, bytes_eq_iff c d)

-- A client that gets no callback.
pub unsent-Agrees :
    (role : Role) (i : LockInfo) (k : Callback) (d : Bytes) (n : Node)
    → Plays role i d
    → NotFor k d
    → InPhase role n.client n.wire
    → Agrees i d (sent k d n)
unsent-Agrees role i k d n p f h = subst (Agrees i d) (sym (sent-NotFor k d n f)) (role, p, h)

revoke_sent-Agrees :
    (i : LockInfo) (k : Callback) (d : Bytes) (n : Node)
    → Plays revoked i d
    → k ≡ revoke_call d
    → InPhase kept n.client n.wire
    → Agrees i d (sent k d n)
revoke_sent-Agrees i k d n p e h =
    rw (e, bytes_eq_refl d)
      (
        revoked,
        p,
        called_back-Phase n.client.info.stat n.client.info.msg (first_point n.client.info.threads)
            n.client.revoking n.wire.link n.wire.revokes n.wire.retries h,
      )

retry_sent-Agrees :
    (i : LockInfo) (k : Callback) (d : Bytes) (n : Node)
    → Plays asked i d
    → k ≡ retry_call d
    → InPhase waits n.client n.wire
    → Agrees i d (sent k d n)
retry_sent-Agrees i k d n p e h =
    rw (e, bytes_eq_refl d)
      (
        asked,
        p,
        asked_again-Phase n.client.info.stat n.client.info.msg (first_point n.client.info.threads)
            n.client.revoking n.wire.link n.wire.revokes n.wire.retries h,
      )

-- The server's answer to a client that asked.
pub acquire_answer-Agrees :
    (role : Role) (i : LockInfo) (c : Bytes) (n : Node) (r : Reply)
    → IsValid i
    → IsFine n.client
    → Plays role i c
    → InPhase role n.client n.wire
    → CallsAcquire n
    → acquire_info i c ≡ some r
    → Agrees r.info c (sent r.callback c (answer n (acquire_answered r.status)))
acquire_answer-Agrees role i c n r v f p h q e =
    let (st, fr, which) = CallsAcquire-acquiring role n f h q in
    let h1 = rw (st, fr) at h in by_role role p which h1 st fr
  where
    Granted : Role → Type 0
    Granted role =
        Phase role acquiring n.client.info.msg (some calling) n.client.revoking n.wire.link
          n.wire.revokes n.wire.retries

    with_ok :
        (role : Role)
        → Granted role
        → r.status ≡ ok
        → n.client.info.stat ≡ acquiring
        → first_point n.client.info.threads ≡ some calling
        → InPhase kept n.client (answer n (acquire_answered r.status)).wire
    with_ok role h1 s st fr =
        rw (s, st, fr)
          (granted-Phase role n.client.info.msg n.client.revoking n.wire.link n.wire.revokes
            n.wire.retries q.0 h1)

    by_role :
        (role : Role)
        → Plays role i c
        → (role ≡ away) ⊎ (role ≡ asked)
        → Granted role
        → n.client.info.stat ≡ acquiring
        → first_point n.client.info.threads ≡ some calling
        → Agrees r.info c (sent r.callback c (answer n (acquire_answered r.status)))
    by_role away p w h1 st fr = elim (acquire_info-away i c r v p e) [
      | inl (s, k, m) ↦ unsent-Agrees kept r.info r.callback c _ k m (with_ok away h1 s st fr)
      | inr (s, k, m) ↦ unsent-Agrees waits r.info r.callback c _ k m (
          rw (s, st, fr)
            (told_to_wait-Phase n.client.info.msg n.client.revoking n.wire.link n.wire.revokes
              n.wire.retries h1))
    ]
    by_role asked p w h1 st fr = elim (acquire_info-asked i c r p e) [
      | inl (s, k, m) ↦
          unsent-Agrees kept r.info r.callback c _ k (subst (λ x. NotFor x c) (sym m) tt)
            (with_ok asked h1 s st fr)
      | inr (s, k, m) ↦ revoke_sent-Agrees r.info r.callback c _ k m (with_ok asked h1 s st fr)
    ]
    by_role _ p w h1 st fr = absurd (ground (arith, w))

-- What that is to another client.
pub Apart-Agrees :
    (role : Role) (r : Reply) (d : Bytes) (n : Node)
    → Apart role r d
    → InPhase role n.client n.wire
    → Agrees r.info d (sent r.callback d n)
Apart-Agrees kept r d n (inl (p, f)) h = unsent-Agrees kept r.info r.callback d n p f h
Apart-Agrees kept r d n (inr (p, e)) h = revoke_sent-Agrees r.info r.callback d n p e h
Apart-Agrees away r d n (p, f) h = unsent-Agrees away r.info r.callback d n p f h
Apart-Agrees revoked r d n (p, f) h = unsent-Agrees revoked r.info r.callback d n p f h
Apart-Agrees waits r d n (p, f) h = unsent-Agrees waits r.info r.callback d n p f h
Apart-Agrees asked r d n (p, f) h = unsent-Agrees asked r.info r.callback d n p f h

pub Beside-Agrees :
    (role : Role) (r : Reply) (d : Bytes) (n : Node)
    → Beside role r d
    → InPhase role n.client n.wire
    → Agrees r.info d (sent r.callback d n)
Beside-Agrees waits r d n (inl (p, f)) h = unsent-Agrees waits r.info r.callback d n p f h
Beside-Agrees waits r d n (inr (p, e)) h = retry_sent-Agrees r.info r.callback d n p e h
Beside-Agrees away r d n (p, f) h = unsent-Agrees away r.info r.callback d n p f h
Beside-Agrees kept r d n (p, f) h = unsent-Agrees kept r.info r.callback d n p f h
Beside-Agrees revoked r d n (p, f) h = unsent-Agrees revoked r.info r.callback d n p f h
Beside-Agrees asked r d n (p, f) h = unsent-Agrees asked r.info r.callback d n p f h

-- The nodes after the server has dealt with a call.
pub served-Agrees :
    (s : Cluster) (c : Bytes) (l : Link) (r : Reply)
    → Agrees r.info c (sent r.callback c (answer (s.nodes c) l))
    → ((d : Bytes) → c ≢ d → d ≢ [] → Agrees r.info d (sent r.callback d (s.nodes d)))
    → (d : Bytes) → d ≢ []
    → Agrees r.info d ((served s c l r).nodes d)
served-Agrees s c l r here others d m = elim (Bool-cases (bytes_eq c d)) [
  | inl e ↦
      let q : c ≡ d = (bytes_eq_iff c d).0 e in
      rw e (subst (λ k. Agrees r.info k (sent r.callback k (answer (s.nodes c) l))) q here)
  | inr e ↦ rw e (others d (λ q. ground (arith, e, bytes_eq_iff c d)) m)
]
