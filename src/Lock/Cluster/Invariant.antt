-- ===== src/Lock/Cluster/Invariant.antt =====
-- lock_server_cache.cc and lock_client_cache.cc: the server and the clients agree on the lock.
use cse_labs.Prelude.{
  ◌≢◌, inl, inr, refl, sym, subst, [], Bytes, bytes_eq, bytes_eq_iff, Bool-cases,
}
use cse_labs.StdMap.{member}
use cse_labs.Lock.Cache.{Reply, Callback, no_call, revoke_call, retry_call}
use cse_labs.Lock.Cache.Invariant.{
  IsValid, After, acquire_info-IsValid, release_info-IsValid, new_lockinfo-IsValid,
}
use cse_labs.Lock.Cache.Agreement.{release_info-some}
use cse_labs.Lock.Client.Threads as client
use cse_labs.Lock.Client.Threads.{System}
use cse_labs.Lock.Client.Turns.{IsFine, Step-Fine}
use cse_labs.Lock.Cluster.{
  Link, acquire_answered, release_answered, Node, Cluster, CallsRelease, update, answer, sent,
  served, Step, steps, serves_acquire, serves_release, Reach, begin, next,
}
use cse_labs.Lock.Cluster.Roles.{
  Role, away, acquire_info-Apart, acquire_info-MayAcquire, release_info-Plays,
}
use cse_labs.Lock.Cluster.Phases.{InPhase, first_point, taken_back-Phase}
use cse_labs.Lock.Cluster.Steps.{Step-Phase}
use cse_labs.Lock.Cluster.Agreement.{
  Agrees, CallsAcquire-acquiring, CallsRelease-releasing, unsent-Agrees, acquire_answer-Agrees,
  Apart-Agrees, Beside-Agrees, served-Agrees,
}

pub record IsSound (s : Cluster) : Type 0 where
  pub valid : IsValid s.server
  pub fine : (c : Bytes) → IsFine (s.nodes c).client
  pub agrees : (c : Bytes) → c ≢ [] → Agrees s.server c (s.nodes c)

-- A callback that is sent leaves the client as it is.
sent_client :
    (P : System → Type 0) (k : Callback) (d : Bytes) (n : Node) → P n.client → P (sent k d n).client
sent_client P no_call d n p = p
sent_client P (revoke_call c) d n p = elim (Bool-cases (bytes_eq c d)) [
  | inl e ↦ rw e p
  | inr e ↦ rw e p
]
sent_client P (retry_call c) d n p = elim (Bool-cases (bytes_eq c d)) [
  | inl e ↦ rw e p
  | inr e ↦ rw e p
]

update_at :
    (P : Bytes → Node → Type 0) (f : Bytes → Node) (c d : Bytes) (x : Node)
    → P c x
    → P d (f d)
    → P d (update f c x d)
update_at P f c d x p q = elim (Bool-cases (bytes_eq c d)) [
  | inl e ↦ rw e (subst (λ k. P k x) ((bytes_eq_iff c d).0 e) p)
  | inr e ↦ rw e q
]

served_clients :
    (P : System → Type 0) (s : Cluster) (c : Bytes) (l : Link) (r : Reply)
    → ((d : Bytes) → P (s.nodes d).client)
    → (d : Bytes) → P ((served s c l r).nodes d).client
served_clients P s c l r h d =
    sent_client P r.callback d (update s.nodes c (answer (s.nodes c) l) d)
      (update_at (λ _ k. P k.client) s.nodes c d (answer (s.nodes c) l) (h c) (h d))

-- The threads of each client are as they may be on their own.
pub Reach-clients : {s : Cluster} → Reach s → (c : Bytes) → client.Reach (s.nodes c).client
Reach-clients begin c = client.begin
Reach-clients (next {s} r (steps c {t = t} w n m u)) d =
    update_at (λ _ k. client.Reach k.client) s.nodes c d (record { client = t; wire = w })
      (client.next (Reach-clients r c) m) (Reach-clients r d)
Reach-clients (next {s} r (serves_acquire c {r = a} n q e)) d =
    served_clients client.Reach s c (acquire_answered a.status) a (Reach-clients r) d
Reach-clients (next {s} r (serves_release c {r = a} n q e)) d =
    served_clients client.Reach s c release_answered a (Reach-clients r) d

release_answer-Phase :
    (role : Role) (n : Node)
    → IsFine n.client
    → InPhase role n.client n.wire
    → CallsRelease n
    → InPhase away n.client (answer n release_answered).wire
release_answer-Phase role n f h q =
    let (st, which) = CallsRelease-releasing role n f h q in
    let h1 = subst (λ k. InPhase k n.client n.wire) which h in
    rw st (
      taken_back-Phase n.client.info.msg (first_point n.client.info.threads) n.client.revoking
        n.wire.link n.wire.revokes n.wire.retries q.0 (rw st at h1))

Step-IsSound : {s t : Cluster} → Step s t → IsSound s → IsSound t
Step-IsSound {s} (steps c {t = t} w n m u) h =
    let (role, p, ph) = h.agrees c n in
    let x : Node = record { client = t; wire = w } in
    let moved : Agrees s.server c x =
      (role, p, Step-Phase m role (s.nodes c).wire w u (h.fine c) ph) in
    record {
      valid = h.valid;
      fine =
          λ d. update_at (λ _ k. IsFine k.client) s.nodes c d x (Step-Fine m (h.fine c)) (h.fine d);
      agrees = λ d k. update_at (Agrees s.server) s.nodes c d x moved (h.agrees d k);
    }
Step-IsSound {s} (serves_acquire c {r = r} n q e) h =
    let (role, p, ph) = h.agrees c n in
    let (_, _, which) = CallsAcquire-acquiring role (s.nodes c) (h.fine c) ph q in
    let may = acquire_info-MayAcquire role s.server c h.valid n p which in
    record {
      valid = subst (After (λ k. IsValid k.info)) e (acquire_info-IsValid s.server c h.valid may);
      fine = served_clients IsFine s c (acquire_answered r.status) r h.fine;
      agrees =
          served-Agrees s c (acquire_answered r.status) r
            (acquire_answer-Agrees role s.server c (s.nodes c) r h.valid (h.fine c) p ph q e)
            (λ d k m.
              let (other, pd, hd) = h.agrees d m in
              Apart-Agrees other r d (s.nodes d)
                (acquire_info-Apart s.server c r h.valid e other d k m pd) hd);
    }
Step-IsSound {s} (serves_release c {r = r} n q e) h =
    let (role, p, ph) = h.agrees c n in
    let (st, o, _) = release_info-some s.server c r e in
    let (gone, unsent, beside) = release_info-Plays s.server c r h.valid n e in
    record {
      valid = subst (After (λ k. IsValid k.info)) e (release_info-IsValid s.server c h.valid st o);
      fine = served_clients IsFine s c release_answered r h.fine;
      agrees =
          served-Agrees s c release_answered r
            (unsent-Agrees away r.info r.callback c (answer (s.nodes c) release_answered) gone
              unsent (release_answer-Phase role (s.nodes c) (h.fine c) ph q))
            (λ d k m.
              let (other, pd, hd) = h.agrees d m in
              Beside-Agrees other r d (s.nodes d) (beside other d k m pd) hd);
    }

pub Reach-IsSound : {s : Cluster} → Reach s → IsSound s
unfolding member
Reach-IsSound begin = record {
  valid = new_lockinfo-IsValid;
  fine = λ _. record { behind = tt; shape = (refl, tt); owns = refl };
  agrees = λ c n. (away, (λ e. n (sym e), refl, λ e. n (sym e)), (refl, refl, (refl, refl)));
}
Reach-IsSound (next r m) = Step-IsSound m (Reach-IsSound r)
