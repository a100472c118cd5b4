-- ===== src/Lock/Client/Shape.antt =====
-- lock_client_cache.cc: where the first thread is, by the state of the lock, and a thread that goes on.
use cse_labs.Prelude.{◌≡◌, ◌≢◌, ◌⊎◌, refl, Bool, true, false, some, List, [], ◌∷◌, ◌++◌, arith, All}
use cse_labs.Lock.Protocol.{Status, ok}
use cse_labs.Lock.Client.{
  State, unknown, free, locked, acquiring, releasing, Message, no_message, Thread, Point, asleep,
  awake, calling, holding, leaving, Place, turn, freed, retried, Ran, take_turn, call_again, go_on,
  answered,
}
use cse_labs.Lock.Client.Threads.{granted}

abbrev pub Waits : Thread → Type 0
Waits t = t.point ≡ asleep turn

-- Every thread behind the first one sleeps until its turn.
abbrev pub Behind : List Thread → Type 0
Behind [] = Unit
Behind (t ∷ ts) = All Waits ts

abbrev pub Front : (Point → Type 0) → List Thread → Type 0
Front P [] = ⊥
Front P (t ∷ ts) = P t.point

abbrev pub IfFront : (Point → Type 0) → List Thread → Type 0
IfFront P [] = Unit
IfFront P (t ∷ ts) = P t.point

-- Where the first thread is, by the state of the lock.
abbrev pub Shape : State → Bool → List Thread → Type 0
Shape unknown revoking ts =
    (revoking ≡ false) × IfFront (λ p. (p ≡ awake turn) ⊎ (p ≡ awake freed)) ts
Shape free revoking ts = (revoking ≡ false) × (ts ≡ [])
Shape locked revoking ts = (revoking ≡ false) × Front (λ p. (p ≡ holding) ⊎ (p ≡ awake turn)) ts
Shape acquiring revoking ts =
    (revoking ≡ false) × Front (λ p. (p ≡ calling) ⊎ (p ≡ asleep retried) ⊎ (p ≡ awake retried)) ts
Shape releasing revoking ts =
    ((revoking ≡ false) × Front (λ p. p ≡ leaving) ts)
    ⊎ ((revoking ≡ true) × IfFront (λ p. p ≡ asleep freed) ts)

abbrev pub has_lock : State → Bool
has_lock unknown = false
has_lock acquiring = false
has_lock _ = true

pub record Fine (stat : State) (owned revoking : Bool) (ts : List Thread) : Type 0 where
  pub behind : Behind ts
  pub shape : Shape stat revoking ts
  pub owns : owned ≡ has_lock stat

pub Behind-first :
    (before : List Thread) (t : Thread) (after : List Thread)
    → Behind (before ++ t ∷ after)
    → t.point ≢ asleep turn
    → before ≡ []
Behind-first [] t after b n = refl
Behind-first (u ∷ before) t after b n = absurd (n (All-middle before b))
  where
    All-middle : (before : List Thread) → All Waits (before ++ t ∷ after) → Waits t
    All-middle [] a = a.0
    All-middle (v ∷ before) a = All-middle before a.1

pub go_on-Fine :
    (place : Place) (stat : State) (msg : Message) (o r : Bool) (t : Thread) (after : List Thread)
    {ran : Ran}
    → Fine stat o r (t ∷ after)
    → t.point ≡ awake place
    → go_on place stat msg ≡ some ran
    → Fine ran.stat o r (record t { point = ran.point } ∷ after)
unfolding go_on take_turn call_again
go_on-Fine turn unknown msg o r t after {ran} f p e = record {
  behind = f.behind;
  shape = ground (arith, f.shape, e, p);
  owns = ground (arith, f.owns, e);
}
go_on-Fine turn free msg o r t after {ran} f p e = record {
  behind = f.behind;
  shape = ground (arith, f.shape, e, p);
  owns = ground (arith, f.owns, e);
}
go_on-Fine turn locked msg o r t after {ran} f p e = record {
  behind = f.behind;
  shape = ground (arith, f.shape, e, p);
  owns = ground (arith, f.owns, e);
}
go_on-Fine turn _ msg o r t after {ran} f p e = absurd (ground (arith, f.shape, p))
go_on-Fine freed unknown msg o r t after {ran} f p e = record {
  behind = f.behind;
  shape = ground (arith, f.shape, e, p);
  owns = ground (arith, f.owns, e);
}
go_on-Fine freed _ msg o r t after {ran} f p e = absurd (ground (arith, f.shape, p))
go_on-Fine retried acquiring msg o r t after {ran} f p e = record {
  behind = f.behind;
  shape = ground (arith, f.shape, e, p);
  owns = ground (arith, f.owns, e);
}
go_on-Fine retried _ msg o r t after {ran} f p e = absurd (ground (arith, f.shape, p))

pub answered-Fine :
    (status : Status) (stat : State) (msg : Message) (o r : Bool) (t : Thread) (after : List Thread)
    {ran : Ran}
    → Fine stat o r (t ∷ after)
    → t.point ≡ calling
    → answered status stat msg ≡ some ran
    → Fine ran.stat (granted status o) r (record t { point = ran.point } ∷ after)
unfolding answered call_again
answered-Fine ok acquiring msg o r t after f p e = record {
  behind = f.behind;
  shape = ground (arith, f.shape, e, p);
  owns = ground (arith, f.owns, e);
}
answered-Fine _ acquiring no_message o r t after f p e = record {
  behind = f.behind;
  shape = ground (arith, f.shape, e, p);
  owns = ground (arith, f.owns, e);
}
answered-Fine _ acquiring _ o r t after f p e = record {
  behind = f.behind;
  shape = ground (arith, f.shape, e, p);
  owns = ground (arith, f.owns, e);
}
answered-Fine _ unknown msg o r t after f p e = absurd (ground (arith, f.shape, p))
answered-Fine _ free msg o r t after f p e = absurd (ground (arith, f.shape, p))
answered-Fine _ locked msg o r t after f p e = absurd (ground (arith, f.shape, p))
answered-Fine _ releasing msg o r t after f p e = absurd (ground (arith, f.shape, p))

-- A thread that holds the lock is the first one, and the lock is LOCKED.
pub holding-locked :
    (stat : State) (o r : Bool) (t : Thread) (after : List Thread)
    → Fine stat o r (t ∷ after)
    → t.point ≡ holding
    → (stat ≡ locked) × (r ≡ false)
holding-locked locked o r t after f p = (refl, f.shape.0)
holding-locked _ o r t after f p = absurd (ground (arith, f.shape, p))

pub leaving-releasing :
    (stat : State) (o r : Bool) (t : Thread) (after : List Thread)
    → Fine stat o r (t ∷ after)
    → t.point ≡ leaving
    → (stat ≡ releasing) × (r ≡ false)
leaving-releasing releasing o r t after f p = (refl, ground (arith, f.shape, p))
leaving-releasing _ o r t after f p = absurd (ground (arith, f.shape, p))
