-- ===== src/Lock/Cluster/Progress.antt =====
-- lock_server_cache.cc and lock_client_cache.cc: a thread that waits for the lock waits for someone.
use cse_labs.Prelude.{
  ℕ, suc, ◌≡◌, ◌≢◌, ◌⊎◌, inl, inr, refl, subst, true, some, List, [], ◌∷◌, arith, Bytes, bytes_key,
}
use cse_labs.StdMap.{member}
use cse_labs.Lock.Protocol.{Status, ok, retry}
use cse_labs.Lock.Cache as server
use cse_labs.Lock.Cache.Invariant.{IsConsistent}
use cse_labs.Lock.Client.{
  State, unknown, free, locked, acquiring, releasing, Message, Point, awake, calling, holding,
  leaving, Place, turn, freed, retried, Thread,
}
use cse_labs.Lock.Client.Threads.{System}
use cse_labs.Lock.Client.Shape.{Front, Shape}
use cse_labs.Lock.Client.Turns.{IsFine}
use cse_labs.Lock.Cluster.{
  quiet, acquire_answered, release_answered, Node, Cluster, IsAt, CallsAcquire, CallsRelease, Reach,
}
use cse_labs.Lock.Cluster.Roles.{Role, away, kept, revoked, waits, asked, Plays}
use cse_labs.Lock.Cluster.Phases.{first_point, HasIt, HasRetry, HasRevoke, HasNone, InPhase}
use cse_labs.Lock.Cluster.Invariant.{IsSound, Reach-IsSound}
use cse_labs.Lock.Cluster.Exclusion.{Holds}

-- Something is on its way from or to the client, or one of its threads runs.
pub data Busy (n : Node) : Type 0 where
  grant_due : (status : Status) → n.wire.link ≡ acquire_answered status → Busy n
  taken_due : n.wire.link ≡ release_answered → Busy n
  acquire_due : CallsAcquire n → Busy n
  release_due : CallsRelease n → Busy n
  revoke_due : (k : ℕ) → n.wire.revokes ≡ suc k → Busy n
  retry_due : (k : ℕ) → n.wire.retries ≡ suc k → Busy n
  holds : Holds n → Busy n
  goes_on : (place : Place) → IsAt n.client (λ t. t.point ≡ awake place) → Busy n

pub front_at :
    (s : System) (p : Point) (ts : List Thread)
    → s.info.threads ≡ ts
    → first_point ts ≡ some p
    → IsAt s (λ t. t.point ≡ p)
front_at s p [] e q = cc
front_at s p (t ∷ ts) e q = ([], t, ts, e, ground arith)

pub Front-first_point :
    (P : Point → Type 0) (ts : List Thread)
    → Front P ts
    → (p : Point) × (first_point ts ≡ some p) × P p
Front-first_point P [] h = absurd h
Front-first_point P (t ∷ ts) h = (t.point, refl, h)

module _ (n : Node) where
  Calling : first_point n.client.info.threads ≡ some calling → n.wire.link ≡ quiet → Busy n
  Calling p l = acquire_due (l, front_at n.client calling n.client.info.threads refl p)

  locked-Busy : Shape locked n.client.revoking n.client.info.threads → Busy n
  locked-Busy s = by_point (Front-first_point _ n.client.info.threads s.1)
    where
      by_point :
          (p : Point) × (first_point n.client.info.threads ≡ some p)
            × ((p ≡ holding) ⊎ (p ≡ awake turn))
          → Busy n
      by_point (p, e, inl q) = holds (
          front_at n.client holding n.client.info.threads refl
            (subst (λ k. first_point n.client.info.threads ≡ some k) q e))
      by_point (p, e, inr q) = goes_on turn (
          front_at n.client (awake turn) n.client.info.threads refl
            (subst (λ k. first_point n.client.info.threads ≡ some k) q e))

  revoke-Busy :
      (stat : State) (m : Message)
      → Shape stat n.client.revoking n.client.info.threads
      → HasRevoke stat m (first_point n.client.info.threads) n.client.revoking n.wire.link
      → Busy n
  revoke-Busy acquiring m s h = grant_due ok h.2
  revoke-Busy locked m s h = locked-Busy s
  revoke-Busy releasing m (inl s) h =
      let (p, e, q) = Front-first_point _ n.client.info.threads s.1 in
      release_due (
        h.0,
        inl (
            front_at n.client leaving n.client.info.threads refl
              (subst (λ k. first_point n.client.info.threads ≡ some k) q e)),
      )
  revoke-Busy releasing m (inr s) h = release_due (h.0, inr s.0)
  revoke-Busy _ m s h = absurd h

  retry-Busy :
      (stat : State) (m : Message)
      → HasRetry stat m (first_point n.client.info.threads) n.wire.link
      → Busy n
  retry-Busy acquiring m (inl h) = grant_due retry h.2
  retry-Busy acquiring m (inr (inl h)) =
      goes_on retried (front_at n.client (awake retried) n.client.info.threads refl h.1)
  retry-Busy acquiring m (inr (inr h)) = Calling h.1 h.2
  retry-Busy _ m h = absurd h

  kept-Busy :
      (stat : State)
      → Shape stat n.client.revoking n.client.info.threads
      → n.client.info.threads ≢ []
      → HasIt stat (first_point n.client.info.threads) n.wire.link
      → Busy n
  kept-Busy acquiring s t h = grant_due ok h.1
  kept-Busy locked s t h = locked-Busy s
  kept-Busy free s t h = absurd (t s.1)
  kept-Busy _ s t h = absurd h

  away-Busy :
      (stat : State) (m : Message) (ts : List Thread)
      → n.client.info.threads ≡ ts
      → Shape stat n.client.revoking ts
      → ts ≢ []
      → HasNone stat m (first_point ts) n.client.revoking n.wire.link
      → Busy n
  away-Busy unknown m [] e s t h = absurd (t refl)
  away-Busy unknown m (u ∷ ts) e (_, inl s) t h = goes_on turn ([], u, ts, e, s)
  away-Busy unknown m (u ∷ ts) e (_, inr s) t h = goes_on freed ([], u, ts, e, s)
  away-Busy acquiring m ts e s t h = acquire_due (h.2, front_at n.client calling ts e h.1)
  away-Busy releasing m ts e s t h = taken_due h.0
  away-Busy _ m ts e s t h = absurd h

  revoked-Busy : IsFine n.client → InPhase revoked n.client n.wire → Busy n
  revoked-Busy f (t, inl h) = revoke_due 0 h.0
  revoked-Busy f (t, inr h) = revoke-Busy n.client.info.stat n.client.info.msg f.shape h.1

  asked-Busy : InPhase asked n.client n.wire → Busy n
  asked-Busy (v, inl h) = retry_due 0 h.0
  asked-Busy (v, inr h) = retry-Busy n.client.info.stat n.client.info.msg h.1

  Busy-cases :
      (role : Role)
      → IsFine n.client
      → InPhase role n.client n.wire
      → n.client.info.threads ≢ []
      → Busy n ⊎ (role ≡ waits)
  Busy-cases away f h t =
      inl (away-Busy n.client.info.stat n.client.info.msg n.client.info.threads refl f.shape t h.2)
  Busy-cases kept f h t = inl (kept-Busy n.client.info.stat f.shape t h.3)
  Busy-cases revoked f h t = inl (revoked-Busy f h)
  Busy-cases waits f h t = inr refl
  Busy-cases asked f h t = inl (asked-Busy h)

-- The owner of a lock that is revoked, and the client that is asked to retry, are known as such.
owner-revoked :
    (role : Role) (i : server.LockInfo)
    → IsConsistent server.revoking i
    → i.stat ≡ server.revoking
    → Plays role i i.owner
    → role ≡ revoked
owner-revoked revoked i c e p = refl
owner-revoked _ i c e p = absurd (ground (arith, c, e, p))

retrying-asked :
    (role : Role) (i : server.LockInfo)
    → IsConsistent server.retrying i
    → i.stat ≡ server.retrying
    → Plays role i i.retrying_cid
    → role ≡ asked
retrying-asked asked i c e p = refl
retrying-asked _ i c e p = absurd (ground (arith, c, e, p))

abbrev SomeBusy : Cluster → Type 0
SomeBusy s = (d : Bytes) × (d ≢ []) × Busy (s.nodes d)

-- Behind a client that waits stands the owner, or the client that is asked to retry.
waits-SomeBusy :
    (s : Cluster) (c : Bytes) (stat : server.State)
    → IsSound s
    → s.server.stat ≡ stat
    → IsConsistent stat s.server
    → member c s.server.waiting_cids ≡ true
    → SomeBusy s
unfolding member
waits-SomeBusy s c server.free h e k m = absurd (ground (arith, m, k))
waits-SomeBusy s c server.locked h e k m = absurd (ground (arith, m, k))
waits-SomeBusy s c server.revoking h e k m =
    let o = s.server.owner in
    let (role, p, f) = h.agrees o k.0 in
    let r = owner-revoked role s.server k e p in
    (
      o,
      k.0,
      revoked-Busy (s.nodes o) (h.fine o)
          (subst (λ x. InPhase x (s.nodes o).client (s.nodes o).wire) r f),
    )
waits-SomeBusy s c server.retrying h e k m =
    let o = s.server.retrying_cid in
    let (role, p, f) = h.agrees o k.1 in
    let r = retrying-asked role s.server k e p in
    (
      o,
      k.1,
      asked-Busy (s.nodes o) (subst (λ x. InPhase x (s.nodes o).client (s.nodes o).wire) r f),
    )

-- No deadlock: in every state that the server of a lock, its clients and their threads can reach, while
-- a thread of some client has called `acquire` and not returned from its `release`, there is a
-- client to which an answer or a callback is on its way, from which a call is on its way to the
-- server, or which has a thread that holds the lock or was signalled and is about to go on.
pub no_deadlock :
    {s : Cluster} (c : Bytes)
    → Reach s
    → c ≢ []
    → (s.nodes c).client.info.threads ≢ []
    → (d : Bytes) × (d ≢ []) × Busy (s.nodes d)
no_deadlock {s} c r n t =
    let h = Reach-IsSound r in
    let (role, p, f) = h.agrees c n in
    elim (Busy-cases (s.nodes c) role (h.fine c) f t) [
      | inl b ↦ (c, n, b)
      | inr e ↦
          waits-SomeBusy s c s.server.stat h refl h.valid.consistent
            (subst (λ k. Plays k s.server c) e p)
    ]
