-- ===== src/Lock/Cluster/Phases.antt =====
-- lock_client_cache.cc: where a client may be, by what it is to the server of the lock.
use cse_labs.Prelude.{
  ℕ, ◌+◌, ◌≡◌, ◌⊎◌, inl, inr, refl, Bool, true, false, Option, none, some, List, [], ◌∷◌, arith,
}
use cse_labs.Lock.Protocol.{ok, retry}
use cse_labs.Lock.Client.{
  State, unknown, free, locked, acquiring, releasing, Message, no_message, retry_message,
  revoke_message, Point, asleep, awake, calling, retried, Thread,
}
use cse_labs.Lock.Client.Threads.{System}
use cse_labs.Lock.Cluster.{Link, quiet, acquire_answered, release_answered, Wire}
use cse_labs.Lock.Cluster.Roles.{Role, away, kept, revoked, waits, asked}

abbrev pub first_point : List Thread → Option Point
first_point [] = none
first_point (t ∷ ts) = some t.point

-- The client has the lock, or the answer that grants it is on its way.
abbrev pub HasIt : State → Option Point → Link → Type 0
HasIt acquiring p l = (p ≡ some calling) × (l ≡ acquire_answered ok)
HasIt free p l = l ≡ quiet
HasIt locked p l = l ≡ quiet
HasIt _ p l = ⊥

-- It has heard that it is to give the lock back.
abbrev pub HasRevoke : State → Message → Option Point → Bool → Link → Type 0
HasRevoke acquiring m p b l = (m ≡ revoke_message) × (p ≡ some calling) × (l ≡ acquire_answered ok)
HasRevoke locked m p b l = (m ≡ revoke_message) × (l ≡ quiet)
HasRevoke releasing m p b l =
    (l ≡ quiet) × (((m ≡ revoke_message) × (b ≡ false)) ⊎ ((m ≡ no_message) × (b ≡ true)))
HasRevoke _ m p b l = ⊥

abbrev pub HasWait : State → Message → Option Point → Link → Type 0
HasWait acquiring m p l =
    (m ≡ no_message)
    × (((p ≡ some calling) × (l ≡ acquire_answered retry))
        ⊎ ((p ≡ some (asleep retried)) × (l ≡ quiet)))
HasWait _ m p l = ⊥

-- It has heard that it is to ask again.
abbrev pub HasRetry : State → Message → Option Point → Link → Type 0
HasRetry acquiring m p l =
    ((m ≡ retry_message) × (p ≡ some calling) × (l ≡ acquire_answered retry))
    ⊎ ((m ≡ retry_message) × (p ≡ some (awake retried)) × (l ≡ quiet))
    ⊎ ((m ≡ no_message) × (p ≡ some calling) × (l ≡ quiet))
HasRetry _ m p l = ⊥

abbrev pub HasNone : State → Message → Option Point → Bool → Link → Type 0
HasNone unknown m p b l = (m ≡ no_message) × (l ≡ quiet)
HasNone acquiring m p b l = (m ≡ no_message) × (p ≡ some calling) × (l ≡ quiet)
HasNone releasing m p b l = (l ≡ release_answered) × ((b ≡ false) ⊎ ((b ≡ true) × (m ≡ no_message)))
HasNone _ m p b l = ⊥

abbrev pub Phase : Role → State → Message → Option Point → Bool → Link → ℕ → ℕ → Type 0
Phase away s m p b l v t = (v ≡ 0) × (t ≡ 0) × HasNone s m p b l
Phase kept s m p b l v t = (v ≡ 0) × (t ≡ 0) × (m ≡ no_message) × HasIt s p l
Phase revoked s m p b l v t =
    (t ≡ 0) × (((v ≡ 1) × (m ≡ no_message) × HasIt s p l) ⊎ ((v ≡ 0) × HasRevoke s m p b l))
Phase waits s m p b l v t = (v ≡ 0) × (t ≡ 0) × HasWait s m p l
Phase asked s m p b l v t = (v ≡ 0) × (((t ≡ 1) × HasWait s m p l) ⊎ ((t ≡ 0) × HasRetry s m p l))

abbrev pub InPhase : Role → System → Wire → Type 0
InPhase role s w =
    Phase role s.info.stat s.info.msg (first_point s.info.threads) s.revoking w.link w.revokes
      w.retries

-- The calls that a client can make, by its phase.
pub calls_acquire-role :
    (role : Role) (m : Message) (b : Bool) (l : Link) (v t : ℕ)
    → l ≡ quiet
    → Phase role acquiring m (some calling) b l v t
    → (role ≡ away) ⊎ (role ≡ asked)
calls_acquire-role away m b l v t e h = inl refl
calls_acquire-role asked m b l v t e h = inr refl
calls_acquire-role kept m b l v t e h = absurd (ground (arith, e, h))
calls_acquire-role revoked m b l v t e h = absurd (ground (arith, e, h))
calls_acquire-role waits m b l v t e h = absurd (ground (arith, e, h))

pub calls_release-role :
    (role : Role) (m : Message) (p : Option Point) (b : Bool) (l : Link) (v t : ℕ)
    → l ≡ quiet
    → Phase role releasing m p b l v t
    → role ≡ revoked
calls_release-role revoked m p b l v t e h = refl
calls_release-role away m p b l v t e h = absurd (ground (arith, e, h))
calls_release-role kept m p b l v t e h = absurd (ground (arith, e, h))
calls_release-role waits m p b l v t e h = absurd (ground (arith, e, h))
calls_release-role asked m p b l v t e h = absurd (ground (arith, e, h))

-- The server's answers, and its callbacks to a client.
pub granted-Phase :
    (role : Role) (m : Message) (b : Bool) (l : Link) (v t : ℕ)
    → l ≡ quiet
    → Phase role acquiring m (some calling) b l v t
    → Phase kept acquiring m (some calling) b (acquire_answered ok) v t
granted-Phase away m b l v t e h = ground arith
granted-Phase asked m b l v t e h = ground arith
granted-Phase _ m b l v t e h = absurd (ground (arith, h, e))

pub told_to_wait-Phase :
    (m : Message) (b : Bool) (l : Link) (v t : ℕ)
    → Phase away acquiring m (some calling) b l v t
    → Phase waits acquiring m (some calling) b (acquire_answered retry) v t
told_to_wait-Phase m b l v t h = ground arith

pub called_back-Phase :
    (s : State) (m : Message) (p : Option Point) (b : Bool) (l : Link) (v t : ℕ)
    → Phase kept s m p b l v t
    → Phase revoked s m p b l (v + 1) t
called_back-Phase s m p b l v t h = ground arith

pub asked_again-Phase :
    (s : State) (m : Message) (p : Option Point) (b : Bool) (l : Link) (v t : ℕ)
    → Phase waits s m p b l v t
    → Phase asked s m p b l v (t + 1)
asked_again-Phase s m p b l v t h = ground arith

pub taken_back-Phase :
    (m : Message) (p : Option Point) (b : Bool) (l : Link) (v t : ℕ)
    → l ≡ quiet
    → Phase revoked releasing m p b l v t
    → Phase away releasing m p b release_answered v t
taken_back-Phase m p b l v t e h = ground arith
