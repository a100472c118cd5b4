-- ===== src/Lock/Client/Turns.antt =====
-- lock_client_cache.cc: the threads of a client and their turns.
use cse_labs.Prelude.{
  ◌≡◌, ◌≢◌, refl, ap, sym, subst, ◌∙◌, Bool, true, false, some, List, [], ◌∷◌, ◌++◌, arith, All,
}
use cse_labs.Lock.Protocol.{Status, ok}
use cse_labs.Lock.Client.{
  State, unknown, free, locked, acquiring, releasing, Message, no_message, Thread, Point, asleep,
  awake, calling, holding, leaving, failed, Place, turn, freed, retried, Ran, acquire, take_turn,
  call_again, go_on, answered, release, revoked,
}
use cse_labs.Lock.Client.Threads.{
  System, granted, Step, acquires, goes_on, answers, releases, gives_back, revokes, revoke_ends,
  retries, Reach, begin, next,
}
use cse_labs.Lock.Client.Shape.{
  Waits, Behind, has_lock, Fine, Behind-first, go_on-Fine, answered-Fine, holding-locked,
  leaving-releasing,
}
use cse_labs.Lock.Client.Leaving.{
  release-Fine, released-Fine, revoke_handler-Fine, revoked-Fine, retry_handler-Fine, acquire-Fine,
}

abbrev pub IsFine : System → Type 0
IsFine s = Fine s.info.stat s.owned s.revoking s.info.threads

-- A thread of the list that does not sleep until its turn is the first one.
pub first_thread :
    (s : System) (before : List Thread) (t : Thread) (after : List Thread)
    → IsFine s
    → s.info.threads ≡ before ++ t ∷ after
    → t.point ≢ asleep turn
    → (before ≡ []) × Fine s.info.stat s.owned s.revoking (t ∷ after)
first_thread s before t after f e n =
    let first = Behind-first before t after (subst Behind e f.behind) n in
    (first, subst (Fine s.info.stat s.owned s.revoking) (e ∙ ap (λ b. b ++ t ∷ after) first) f)

pub Step-Fine : {s s' : System} → Step s s' → IsFine s → IsFine s'
unfolding acquire
Step-Fine {s} (acquires id) f = acquire-Fine s.info s.info.threads s.owned s.revoking id f
Step-Fine {s} (goes_on before t after place r e p g) f =
    let (first, at) = first_thread s before t after f e (ground (arith, p)) in
    let h = go_on-Fine place s.info.stat s.info.msg s.owned s.revoking t after at p g in
    subst (λ b. Fine r.stat s.owned s.revoking (b ++ record t { point = r.point } ∷ after))
      (sym first) h
Step-Fine {s} (answers before t after status r e p g) f =
    let (first, at) = first_thread s before t after f e (ground (arith, p)) in
    let h = answered-Fine status s.info.stat s.info.msg s.owned s.revoking t after at p g in
    subst
      (λ b.
        Fine r.stat (granted status s.owned) s.revoking (b ++ record t { point = r.point } ∷ after))
      (sym first) h
Step-Fine {s} (releases before t after i e p g) f =
    let (first, at) = first_thread s before t after f e (ground (arith, p)) in
    release-Fine s.info i s.info.msg s.owned s.revoking t after at p
      (e ∙ ap (λ b. b ++ t ∷ after) first)
      (subst (λ b. release s.info s.info.msg b t after ≡ some i) first g)
Step-Fine {s} (gives_back before t after i e p g) f =
    let (first, at) = first_thread s before t after f e (ground (arith, p)) in
    released-Fine s.info i s.owned s.revoking t after at p (e ∙ ap (λ b. b ++ t ∷ after) first) g
Step-Fine {s} revokes f = revoke_handler-Fine s.info.stat s.info s.owned s.revoking refl f
Step-Fine {s} (revoke_ends e) f =
    unfold revoked in
    revoked-Fine s.info.stat s.owned s.info.threads
      (subst (λ k. Fine s.info.stat s.owned k s.info.threads) e f)
Step-Fine {s} (retries i e g) f =
    retry_handler-Fine s.info i s.info.threads s.owned s.revoking e
      (subst (λ k. Fine k s.owned s.revoking s.info.threads) e f) g

Reach-Fine : {s : System} → Reach s → IsFine s
Reach-Fine begin = record { behind = tt; shape = (refl, tt); owns = refl }
Reach-Fine (next r m) = Step-Fine m (Reach-Fine r)

-- What may be said of a thread by where it is.
abbrev pub Lawful : Point → State → Message → Bool → List Thread → List Thread → Type 0
Lawful holding stat msg owned before after = (before ≡ []) × All Waits after × (owned ≡ true)
Lawful leaving stat msg owned before after = (before ≡ []) × All Waits after × (owned ≡ true)
Lawful calling stat msg owned before after =
    (before ≡ [])
    × (owned ≡ false)
    × ((status : Status) → (r : Ran) × (answered status stat msg ≡ some r))
Lawful (awake place) stat msg owned before after =
    (r : Ran) × (go_on place stat msg ≡ some r) × (r.point ≢ failed)
Lawful (asleep turn) stat msg owned before after = before ≢ []
Lawful (asleep _) stat msg owned before after = before ≡ []
Lawful failed stat msg owned before after = ⊥

pub answered_runs :
    (status : Status) (msg : Message) → (r : Ran) × (answered status acquiring msg ≡ some r)
unfolding answered call_again
answered_runs ok msg = (_, refl)
answered_runs _ no_message = (_, refl)
answered_runs _ _ = (_, refl)

awake_runs :
    (place : Place) (stat : State) (msg : Message) (o r : Bool) (t : Thread) (after : List Thread)
    → Fine stat o r (t ∷ after)
    → t.point ≡ awake place
    → (ran : Ran) × (go_on place stat msg ≡ some ran) × (ran.point ≢ failed)
unfolding go_on take_turn call_again
awake_runs turn unknown msg o r t after f e = (_, refl, ground arith)
awake_runs turn locked msg o r t after f e = (_, refl, ground arith)
awake_runs turn _ msg o r t after f e = absurd (ground (arith, f.shape, e))
awake_runs freed stat msg o r t after f e = (_, refl, ground arith)
awake_runs retried acquiring msg o r t after f e = (_, refl, ground arith)
awake_runs retried _ msg o r t after f e = absurd (ground (arith, f.shape, e))

-- The first thread calls only while the lock is wanted, and never sleeps until its turn.
pub calling-acquiring :
    (stat : State) (o r : Bool) (t : Thread) (after : List Thread)
    → Fine stat o r (t ∷ after)
    → t.point ≡ calling
    → stat ≡ acquiring
calling-acquiring acquiring o r t after f p = refl
calling-acquiring _ o r t after f p = absurd (ground (arith, f.shape, p))

first_not_waiting :
    (stat : State) (o r : Bool) (t : Thread) (after : List Thread)
    → Fine stat o r (t ∷ after)
    → (t.point ≢ asleep turn) × (t.point ≢ failed)
first_not_waiting unknown o r t after f = ground (arith, f.shape)
first_not_waiting free o r t after f = ground (arith, f.shape)
first_not_waiting locked o r t after f = ground (arith, f.shape)
first_not_waiting acquiring o r t after f = ground (arith, f.shape)
first_not_waiting releasing o r t after f = ground (arith, f.shape)

first-Lawful :
    (p : Point) (stat : State) (msg : Message) (o r : Bool) (t : Thread) (after : List Thread)
    → Fine stat o r (t ∷ after)
    → t.point ≡ p
    → Lawful p stat msg o [] after
first-Lawful holding stat msg o r t after f e =
    (refl, f.behind, f.owns ∙ ap has_lock (holding-locked stat o r t after f e).0)
first-Lawful leaving stat msg o r t after f e =
    (refl, f.behind, f.owns ∙ ap has_lock (leaving-releasing stat o r t after f e).0)
first-Lawful calling stat msg o r t after f e =
    let st = calling-acquiring stat o r t after f e in
    (
      refl,
      f.owns ∙ ap has_lock st,
      subst (λ k. (status : Status) → (ran : Ran) × (answered status k msg ≡ some ran)) (sym st)
          (λ status. answered_runs status msg),
    )
first-Lawful (awake place) stat msg o r t after f e = awake_runs place stat msg o r t after f e
first-Lawful (asleep turn) stat msg o r t after f e =
    absurd ((first_not_waiting stat o r t after f).0 e)
first-Lawful (asleep _) stat msg o r t after f e = refl
first-Lawful failed stat msg o r t after f e = absurd ((first_not_waiting stat o r t after f).1 e)

any-Lawful :
    (s : System) (before : List Thread) (t : Thread) (after : List Thread) (p : Point)
    → IsFine s
    → s.info.threads ≡ before ++ t ∷ after
    → t.point ≡ p
    → p ≢ asleep turn
    → Lawful p s.info.stat s.info.msg s.owned before after
any-Lawful s before t after p f e q n =
    let (first, at) = first_thread s before t after f e (subst (λ k. k ≢ asleep turn) (sym q) n) in
    subst (λ b. Lawful p s.info.stat s.info.msg s.owned b after) (sym first)
      (first-Lawful p s.info.stat s.info.msg s.owned s.revoking t after at q)

waiting-Lawful :
    (s : System) (before : List Thread) (t : Thread) (after : List Thread)
    → IsFine s
    → s.info.threads ≡ before ++ t ∷ after
    → t.point ≡ asleep turn
    → before ≢ []
waiting-Lawful s before t after f e q b =
    let whole = e ∙ ap (λ k. k ++ t ∷ after) b in
    (first_not_waiting s.info.stat s.owned s.revoking t after
        (subst (Fine s.info.stat s.owned s.revoking) whole f)).0
      q

-- In every state that the threads of a client can reach, in whatever order they and the server's calls
-- come, provided that the server calls retry only while the client is acquiring the lock: a thread that holds the lock or gives it back is the first one, all behind it sleep until
-- their turn, and the server has granted the lock to the client; the server's acquire is called only
-- while the client does not have the lock, and any answer to it is dealt with; a thread that was
-- signalled goes on without a failed assertion and without IOERR; and a thread that sleeps until its
-- turn has another one before it.
pub threads-Lawful :
    {s : System} (before : List Thread) (t : Thread) (after : List Thread)
    → Reach s
    → s.info.threads ≡ before ++ t ∷ after
    → Lawful t.point s.info.stat s.info.msg s.owned before after
threads-Lawful {s} before t after r e = by_point t.point refl
  where
    by_point : (p : Point) → t.point ≡ p → Lawful p s.info.stat s.info.msg s.owned before after
    by_point (asleep turn) q = waiting-Lawful s before t after (Reach-Fine r) e q
    by_point (asleep freed) q =
        any-Lawful s before t after (asleep freed) (Reach-Fine r) e q (ground arith)
    by_point (asleep retried) q =
        any-Lawful s before t after (asleep retried) (Reach-Fine r) e q (ground arith)
    by_point (awake place) q =
        any-Lawful s before t after (awake place) (Reach-Fine r) e q (ground arith)
    by_point calling q = any-Lawful s before t after calling (Reach-Fine r) e q (ground arith)
    by_point holding q = any-Lawful s before t after holding (Reach-Fine r) e q (ground arith)
    by_point leaving q = any-Lawful s before t after leaving (Reach-Fine r) e q (ground arith)
    by_point failed q = any-Lawful s before t after failed (Reach-Fine r) e q (ground arith)
