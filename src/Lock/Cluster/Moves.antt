-- ===== src/Lock/Cluster/Moves.antt =====
-- lock_client_cache.cc: the steps of a client keep its phase.
use cse_labs.Prelude.{
  ℕ, ◌≡◌, ◌≢◌, inr, refl, sym, subst, given_answer, Bool, true, false, ◌||◌, suc, Option, none,
  some, List, [], ◌∷◌, arith,
}
use cse_labs.Lock.Protocol.{Status, ok, retry}
use cse_labs.Lock.Client.{
  State, unknown, free, locked, acquiring, releasing, Message, no_message, retry_message,
  revoke_message, Point, asleep, awake, calling, retried, turn, freed, Thread, LockInfo, acquire,
  acquire_first, acquire_from, Place, Ran, go_on, take_turn, call_again, answered, revoke_handler,
  retry_handler, signal_front, signalled, leave, release, released,
}
use cse_labs.Lock.Client as client
use cse_labs.Lock.Client.Shape.{Shape, Fine}
use cse_labs.Lock.Cluster.{Link, quiet, acquire_answered, release_answered}
use cse_labs.Lock.Cluster.Roles.{Role, away, kept, revoked, waits, asked}
use cse_labs.Lock.Cluster.Phases.{first_point, HasWait, HasRetry, Phase}

module _ (role : Role) (b : Bool) (l : Link) (v t : ℕ) where
  abbrev InfoPhase : LockInfo → Type 0
  InfoPhase i = Phase role i.stat i.msg (first_point i.threads) b l v t

-- `acquire` of a thread.
acquire_first-Phase :
    (role : Role) (b : Bool) (l : Link) (v t : ℕ) (i : LockInfo) (stat : State) (id : ℕ)
    → i.stat ≡ stat
    → Shape stat b []
    → Phase role stat i.msg none b l v t
    → InfoPhase role b l v t (acquire_first i stat id)
unfolding acquire_first
acquire_first-Phase away b l v t i unknown id e s h = ground arith
acquire_first-Phase _ b l v t i unknown id e s h = absurd (ground (arith, h))
acquire_first-Phase away b l v t i releasing id e s h = ground arith
acquire_first-Phase revoked b l v t i releasing id e s h = ground arith
acquire_first-Phase _ b l v t i releasing id e s h = absurd (ground (arith, h))
acquire_first-Phase kept b l v t i free id e s h = ground arith
acquire_first-Phase revoked b l v t i free id e s h = ground arith
acquire_first-Phase _ b l v t i free id e s h = absurd (ground (arith, h))
acquire_first-Phase _ b l v t i locked id e s h = absurd s.1
acquire_first-Phase _ b l v t i acquiring id e s h = absurd s.1

pub acquire_from-Phase :
    (role : Role) (b : Bool) (l : Link) (v t : ℕ) (i : LockInfo) (ts : List Thread) (id : ℕ)
    → Shape i.stat b ts
    → Phase role i.stat i.msg (first_point ts) b l v t
    → InfoPhase role b l v t (acquire_from i ts id)
unfolding acquire_from
acquire_from-Phase role b l v t i [] id s h = acquire_first-Phase role b l v t i i.stat id refl s h
acquire_from-Phase role b l v t i (u ∷ ts) id s h = h

-- A thread that was signalled goes on.
pub go_on-Phase :
    (role : Role) (b : Bool) (l : Link) (v t : ℕ) (place : Place) (stat : State) (msg : Message)
    (u : Thread) (after : List Thread) (r : Ran)
    → Shape stat b (u ∷ after)
    → u.point ≡ awake place
    → go_on place stat msg ≡ some r
    → Phase role stat msg (some u.point) b l v t
    → Phase role r.stat r.msg (some r.point) b l v t
unfolding go_on take_turn call_again
go_on-Phase away b l v t turn unknown msg u after r s p e h = ground arith
go_on-Phase _ b l v t turn unknown msg u after r s p e h = absurd (ground (arith, h))
go_on-Phase kept b l v t turn locked msg u after r s p e h = ground arith
go_on-Phase revoked b l v t turn locked msg u after r s p e h = ground arith
go_on-Phase _ b l v t turn locked msg u after r s p e h = absurd (ground (arith, h))
go_on-Phase _ b l v t turn _ msg u after r s p e h = absurd (ground (arith, s, p))
go_on-Phase away b l v t freed unknown msg u after r s p e h = ground arith
go_on-Phase _ b l v t freed unknown msg u after r s p e h = absurd (ground (arith, h))
go_on-Phase _ b l v t freed _ msg u after r s p e h = absurd (ground (arith, s, p))
go_on-Phase asked b l v t retried acquiring msg u after r s p e h = ground arith
go_on-Phase _ b l v t retried acquiring msg u after r s p e h = absurd (ground (arith, h, p))
go_on-Phase _ b l v t retried _ msg u after r s p e h = absurd (ground (arith, s, p))

-- The server's answer to an acquire has come.
pub answered-Phase :
    (role : Role) (b : Bool) (l : Link) (v t : ℕ) (status : Status) (stat : State) (msg : Message)
    (u : Thread) (after : List Thread) (r : Ran)
    → Shape stat b (u ∷ after)
    → u.point ≡ calling
    → answered status stat msg ≡ some r
    → l ≡ acquire_answered status
    → Phase role stat msg (some u.point) b l v t
    → Phase role r.stat r.msg (some r.point) b quiet v t
unfolding answered call_again
answered-Phase kept b l v t ok acquiring msg u after r s p e w h = ground arith
answered-Phase revoked b l v t ok acquiring msg u after r s p e w h = ground arith
answered-Phase _ b l v t ok acquiring msg u after r s p e w h = absurd (ground (arith, h, w))
answered-Phase waits b l v t retry acquiring no_message u after r s p e w h = ground arith
answered-Phase asked b l v t retry acquiring no_message u after r s p e w h = ground arith
answered-Phase asked b l v t retry acquiring retry_message u after r s p e w h = ground arith
answered-Phase _ b l v t retry acquiring _ u after r s p e w h = absurd (ground (arith, h, w))
answered-Phase _ b l v t _ acquiring msg u after r s p e w h = absurd (ground (arith, h, w))
answered-Phase _ b l v t _ _ msg u after r s p e w h = absurd (ground (arith, s, p))

-- The callbacks have come.
pub revoke_handler-Phase :
    (role : Role) (b : Bool) (l : Link) (v t : ℕ) (i : LockInfo) (stat : State)
    → i.stat ≡ stat
    → Shape stat b i.threads
    → Phase role stat i.msg (first_point i.threads) b l (suc v) t
    → InfoPhase role ((revoke_handler i stat).1 || b) l v t (revoke_handler i stat).0
unfolding revoke_handler
revoke_handler-Phase revoked b l v t i free e s h = ground arith
revoke_handler-Phase revoked b l v t i locked e s h = ground arith
revoke_handler-Phase revoked b l v t i acquiring e s h = ground arith
revoke_handler-Phase _ b l v t i _ e s h = absurd (ground (arith, h))

told_again :
    (m : Message) (p : Point) (l : Link)
    → HasWait acquiring m (some p) l
    → HasRetry acquiring retry_message (some (signalled p)) l
told_again m calling l h = ground arith
told_again m (asleep retried) l h = ground arith
told_again m _ l h = absurd (ground (arith, h))

pub retry_handler-Phase :
    (role : Role) (b : Bool) (l : Link) (v t : ℕ) (i j : LockInfo) (ts : List Thread)
    → i.stat ≡ acquiring
    → retry_handler i ts ≡ some j
    → Phase role acquiring i.msg (first_point ts) b l v (suc t)
    → InfoPhase role b l v t j
unfolding retry_handler signal_front
retry_handler-Phase role b l v t i j [] e f h = cc
retry_handler-Phase asked b l v t i j (u ∷ ts) e f h =
    let waited : (t ≡ 0) × HasWait acquiring i.msg (some u.point) l = ground (arith, h) in
    given_answer (InfoPhase asked b l v t) f (
      h.0,
      inr (
        waited.0,
        subst (λ k. HasRetry k retry_message (some (signalled u.point)) l) (sym e)
            (told_again i.msg u.point l waited.1),
      ),
    )
retry_handler-Phase _ b l v t i j (u ∷ ts) e f h = absurd (ground (arith, h))

-- A thread leaves.
leave-Phase :
    (role : Role) (b : Bool) (l : Link) (v t : ℕ) (p : Option Point) (i j : LockInfo)
    (ts : List Thread)
    → Phase role locked i.msg p b l v t
    → i.msg ≢ revoke_message
    → leave false (record i { stat = free }) ts ≡ some j
    → InfoPhase role b l v t j
unfolding leave
leave-Phase role b l v t p i j [] h n e = cc
leave-Phase kept b l v t p i j (u ∷ []) h n e = ground arith
leave-Phase revoked b l v t p i j (u ∷ []) h n e = ground arith
leave-Phase kept b l v t p i j (u ∷ w ∷ ts) h n e = ground arith
leave-Phase revoked b l v t p i j (u ∷ w ∷ ts) h n e = ground arith
leave-Phase _ b l v t p i j (u ∷ ts) h n e = absurd (ground (arith, h))

pub release-Phase :
    (role : Role) (b : Bool) (l : Link) (v t : ℕ) (p : Option Point) (i j : LockInfo)
    (msg : Message) (u : Thread) (after : List Thread)
    → i.msg ≡ msg
    → b ≡ false
    → Phase role locked msg p b l v t
    → release i msg [] u after ≡ some j
    → InfoPhase role b l v t j
unfolding release
release-Phase revoked b l v t p i j revoke_message u after m f h e = ground arith
release-Phase _ b l v t p i j revoke_message u after m f h e = absurd (ground (arith, h))
release-Phase role b l v t p i j no_message u after m f h e =
    leave-Phase role b l v t p i j i.threads (subst (λ k. Phase role locked k p b l v t) (sym m) h)
      (ground arith) e
release-Phase role b l v t p i j retry_message u after m f h e =
    leave-Phase role b l v t p i j i.threads (subst (λ k. Phase role locked k p b l v t) (sym m) h)
      (ground arith) e

-- The server's answer to a release has come.
pub released-Phase :
    (role : Role) (b : Bool) (l : Link) (v t : ℕ) (m : Message) (p : Option Point) (i j : LockInfo)
    (ts : List Thread)
    → l ≡ release_answered
    → Phase role releasing m p b l v t
    → leave true (record i { stat = unknown; msg = no_message }) ts ≡ some j
    → InfoPhase role b quiet v t j
unfolding leave
released-Phase role b l v t m p i j [] w h e = cc
released-Phase away b l v t m p i j (u ∷ []) w h e = ground arith
released-Phase away b l v t m p i j (u ∷ x ∷ ts) w h e = ground arith
released-Phase _ b l v t m p i j (u ∷ ts) w h e = absurd (ground (arith, h, w))

pub revoked-Phase :
    (role : Role) (l : Link) (v t : ℕ) (i : LockInfo) (stat : State)
    → i.stat ≡ stat
    → (o : Bool) → Fine stat o true i.threads
    → l ≡ release_answered
    → Phase role stat i.msg (first_point i.threads) true l v t
    → InfoPhase role false quiet v t (client.revoked i)
unfolding client.revoked
revoked-Phase away l v t i releasing e o f w h = ground arith
revoked-Phase _ l v t i releasing e o f w h = absurd (ground (arith, h, w))
revoked-Phase _ l v t i _ e o f w h = absurd (ground (arith, f.shape))
