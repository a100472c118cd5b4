-- ===== src/Lock/Cluster/Steps.antt =====
-- lock_client_cache.cc: a step of a client keeps its phase.
use cse_labs.Prelude.{◌≡◌, ◌≢◌, refl, ap, sym, subst, ◌∙◌, suc, some, List, [], ◌∷◌, ◌++◌, arith}
use cse_labs.Lock.Client.{acquiring, asleep, turn, Thread, acquire, release, released}
use cse_labs.Lock.Client.Threads.{
  System, Step, acquires, goes_on, answers, releases, gives_back, revokes, revoke_ends, retries,
}
use cse_labs.Lock.Client.Turns.{IsFine, first_thread}
use cse_labs.Lock.Client.Shape.{Fine, holding-locked, leaving-releasing}
use cse_labs.Lock.Cluster.{quiet, Wire, Uses}
use cse_labs.Lock.Cluster.Roles.{Role}
use cse_labs.Lock.Cluster.Phases.{first_point, Phase, InPhase}
use cse_labs.Lock.Cluster.Moves.{
  acquire_from-Phase, go_on-Phase, answered-Phase, revoke_handler-Phase, retry_handler-Phase,
  release-Phase, released-Phase, revoked-Phase,
}

-- A thread that does not sleep until its turn is the first one, and the phase is about it.
pub at_front :
    (role : Role) (s : System) (w : Wire) (before : List Thread) (u : Thread) (after : List Thread)
    → IsFine s
    → s.info.threads ≡ before ++ u ∷ after
    → u.point ≢ asleep turn
    → InPhase role s w
    → (before ≡ [])
      × Fine s.info.stat s.owned s.revoking (u ∷ after)
      × Phase role s.info.stat s.info.msg (some u.point) s.revoking w.link w.revokes w.retries
at_front role s w before u after f e n h =
    let (first, at) = first_thread s before u after f e n in
    (
      first,
      at,
      subst
          (λ k.
            Phase role s.info.stat s.info.msg (first_point k) s.revoking w.link w.revokes w.retries)
          (e ∙ ap (λ b. b ++ u ∷ after) first) h,
    )

-- A step of a client, by what it takes from the wire.
pub Step-Phase :
    {s t : System} (m : Step s t) (role : Role) (w v : Wire)
    → Uses m w v
    → IsFine s
    → InPhase role s w
    → InPhase role t v
unfolding acquire
Step-Phase {s} {t = z} (acquires id) role w v u f h = subst (InPhase role z) (sym u) (
    acquire_from-Phase role s.revoking w.link w.revokes w.retries s.info s.info.threads id f.shape
      h)
Step-Phase {s} {t = z} (goes_on before t after place r e p g) role w v u f h =
    let (first, at, h1) = at_front role s w before t after f e (ground (arith, p)) h in
    subst (InPhase role z) (sym u) (
      subst
        (λ b.
          Phase role r.stat r.msg (first_point (b ++ record t { point = r.point } ∷ after))
            s.revoking w.link w.revokes w.retries)
        (sym first)
        (go_on-Phase role s.revoking w.link w.revokes w.retries place s.info.stat s.info.msg t after
          r at.shape p g h1))
Step-Phase {s} {t = z} (answers before t after status r e p g) role w v u f h =
    let (first, at, h1) = at_front role s w before t after f e (ground (arith, p)) h in
    subst (InPhase role z) (sym u.1) (
      subst
        (λ b.
          Phase role r.stat r.msg (first_point (b ++ record t { point = r.point } ∷ after))
            s.revoking quiet w.revokes w.retries)
        (sym first)
        (answered-Phase role s.revoking w.link w.revokes w.retries status s.info.stat s.info.msg t
          after r at.shape p g u.0 h1))
Step-Phase {s} {t = z} (releases before t after i e p g) role w v u f h =
    let (first, at, h1) = at_front role s w before t after f e (ground (arith, p)) h in
    let (st, rv) = holding-locked s.info.stat s.owned s.revoking t after at p in
    subst (InPhase role z) (sym u) (
      release-Phase role s.revoking w.link w.revokes w.retries (some t.point) s.info i s.info.msg t
        after refl rv
        (subst (λ k. Phase role k s.info.msg (some t.point) s.revoking w.link w.revokes w.retries)
          st h1)
        (subst (λ b. release s.info s.info.msg b t after ≡ some i) first g))
Step-Phase {s} {t = z} (gives_back before t after i e p g) role w v u f h =
    let (first, at, h1) = at_front role s w before t after f e (ground (arith, p)) h in
    let (st, rv) = leaving-releasing s.info.stat s.owned s.revoking t after at p in
    subst (InPhase role z) (sym u.1) (
      released-Phase role s.revoking w.link w.revokes w.retries s.info.msg (some t.point) s.info i
        s.info.threads u.0
        (subst (λ k. Phase role k s.info.msg (some t.point) s.revoking w.link w.revokes w.retries)
          st h1)
        (unfold released in g))
Step-Phase {s} {t = z} revokes role w v (k, q, u) f h = subst (InPhase role z) (sym u) (
    revoke_handler-Phase role s.revoking w.link k w.retries s.info s.info.stat refl f.shape (
      subst
        (λ n.
          Phase role s.info.stat s.info.msg (first_point s.info.threads) s.revoking w.link n
            w.retries)
        q h))
Step-Phase {s} {t = z} (revoke_ends e) role w v u f h = subst (InPhase role z) (sym u.1) (
    revoked-Phase role w.link w.revokes w.retries s.info s.info.stat refl s.owned
      (subst (λ b. Fine s.info.stat s.owned b s.info.threads) e f) u.0
      (subst
        (λ b.
          Phase role s.info.stat s.info.msg (first_point s.info.threads) b w.link w.revokes
            w.retries)
        e h))
Step-Phase {s} {t = z} (retries i e g) role w v (k, q, u) f h = subst (InPhase role z) (sym u) (
    retry_handler-Phase role s.revoking w.link w.revokes k s.info i s.info.threads e g (subst2 q h))
  where
    subst2 :
        (w.retries ≡ suc k)
        → InPhase role s w
        → Phase role acquiring s.info.msg
            (first_point s.info.threads)
            s.revoking
            w.link
            w.revokes
            (suc k)
    subst2 q h =
        subst
          (λ n.
            Phase role acquiring s.info.msg (first_point s.info.threads) s.revoking w.link w.revokes
              n)
          q
          (subst
            (λ a.
              Phase role a s.info.msg (first_point s.info.threads) s.revoking w.link w.revokes
                w.retries)
            e h)
