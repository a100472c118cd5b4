-- ===== src/Lock/Client/Leaving.antt =====
-- lock_client_cache.cc: the operations under the mutex, and where the first thread is.
use cse_labs.Prelude.{
  ℕ, ◌≡◌, inl, inr, refl, ap, sym, subst, ◌∙◌, Bool, true, false, ◌||◌, not, if◌then◌else◌,
  given_answer, some, List, [], ◌∷◌, ◌++◌, arith, All,
}
use cse_labs.Lock.Client.{
  State, unknown, free, locked, acquiring, releasing, Message, no_message, revoke_message, LockInfo,
  Thread, thread_at, asleep, holding, leaving, turn, freed, signal, signalled, signal_front,
  acquire_from, acquire_first, leave, release, released, revoke_handler, retry_handler,
}
use cse_labs.Lock.Client.Shape.{
  Waits, Behind, IfFront, Shape, has_lock, Fine, holding-locked, leaving-releasing,
}

-- The first thread leaves.
leave-Fine :
    (b : Bool) (i j : LockInfo) (o : Bool) (t : Thread) (after : List Thread)
    → Behind (t ∷ after)
    → i.stat ≡ (if b then unknown else free)
    → o ≡ not b
    → leave b i (t ∷ after) ≡ some j
    → Fine j.stat o false j.threads
unfolding leave signal_front
leave-Fine b i j o t [] h st ow e =
    given_answer (λ k. Fine k.stat o false k.threads) e
      (subst (λ k. Fine k o false []) (sym st) (alone b ow))
  where
    alone : (b : Bool) → o ≡ not b → Fine (if b then unknown else free) o false []
    alone true ow = record { behind = tt; shape = (refl, tt); owns = ow }
    alone false ow = record { behind = tt; shape = (refl, refl); owns = ow }
leave-Fine true i j o t (u ∷ after) h st ow e =
    given_answer (λ k. Fine k.stat o false k.threads) e
      (subst (λ k. Fine k o false (signal u ∷ after)) (sym st)
        (record { behind = h.1; shape = (refl, inl (ap signalled h.0)); owns = ow }))
leave-Fine false i j o t (u ∷ after) h st ow e =
    given_answer (λ k. Fine k.stat o false k.threads) e
      (record { behind = h.1; shape = (refl, inr (ap signalled h.0)); owns = ow })

pub release-Fine :
    (i j : LockInfo) (msg : Message) (o r : Bool) (t : Thread) (after : List Thread)
    → Fine i.stat o r (t ∷ after)
    → t.point ≡ holding
    → i.threads ≡ t ∷ after
    → release i msg [] t after ≡ some j
    → Fine j.stat o r j.threads
unfolding release
release-Fine i j revoke_message o r t after f p q e =
    let (st, rv) = holding-locked i.stat o r t after f p in
    given_answer (λ k. Fine k.stat o r k.threads) e
      (record { behind = f.behind; shape = inl (rv, refl); owns = f.owns ∙ ap has_lock st })
release-Fine i j _ o r t after f p q e =
    let (st, rv) = holding-locked i.stat o r t after f p in
    subst (λ k. Fine j.stat o k j.threads) (sym rv)
      (leave-Fine false (record i { stat = free }) j o t after f.behind refl
        (f.owns ∙ ap has_lock st)
        (subst (λ k. leave false (record i { stat = free }) k ≡ some j) q e))

pub released-Fine :
    (i j : LockInfo) (o r : Bool) (t : Thread) (after : List Thread)
    → Fine i.stat o r (t ∷ after)
    → t.point ≡ leaving
    → i.threads ≡ t ∷ after
    → released i ≡ some j
    → Fine j.stat false r j.threads
unfolding released
released-Fine i j o r t after f p q e =
    let (st, rv) = leaving-releasing i.stat o r t after f p in
    subst (λ k. Fine j.stat false k j.threads) (sym rv)
      (leave-Fine true (record i { stat = unknown; msg = no_message }) j false t after f.behind refl
        refl
        (subst (λ k. leave true (record i { stat = unknown; msg = no_message }) k ≡ some j) q e))

pub revoke_handler-Fine :
    (stat : State) (i : LockInfo) (o r : Bool)
    → i.stat ≡ stat
    → Fine stat o r i.threads
    → Fine
        (revoke_handler i stat).0.stat
        o
        ((revoke_handler i stat).1 || r)
        (revoke_handler i stat).0.threads
unfolding revoke_handler
revoke_handler-Fine free i o r e f = record {
  behind = f.behind;
  shape = inr (refl, subst (IfFront (λ p. p ≡ asleep freed)) (sym f.shape.1) tt);
  owns = f.owns;
}
revoke_handler-Fine _ i o r e f = subst (λ k. Fine k o r i.threads) (sym e) f

pub revoked-Fine :
    (stat : State) (o : Bool) (ts : List Thread)
    → Fine stat o true ts
    → Fine unknown false false (signal_front ts)
unfolding signal_front
revoked-Fine releasing o [] f = record { behind = tt; shape = (refl, tt); owns = refl }
revoked-Fine releasing o (t ∷ ts) f = record {
  behind = f.behind;
  shape = (refl, inr (ground (arith, f.shape)));
  owns = refl;
}
revoked-Fine unknown o ts f = absurd (ground (arith, f.shape))
revoked-Fine free o ts f = absurd (ground (arith, f.shape))
revoked-Fine locked o ts f = absurd (ground (arith, f.shape))
revoked-Fine acquiring o ts f = absurd (ground (arith, f.shape))

pub retry_handler-Fine :
    (i j : LockInfo) (ts : List Thread) (o r : Bool)
    → i.stat ≡ acquiring
    → Fine acquiring o r ts
    → retry_handler i ts ≡ some j
    → Fine j.stat o r j.threads
unfolding retry_handler signal_front
retry_handler-Fine i j [] o r st f e = absurd (f.shape.1)
retry_handler-Fine i j (t ∷ ts) o r st f e =
    given_answer (λ k. Fine k.stat o r k.threads) e
      (subst (λ k. Fine k o r (signal t ∷ ts)) (sym st)
        (record { behind = f.behind; shape = (f.shape.0, ground (arith, f.shape)); owns = f.owns }))

-- A thread that asks comes last.
Waits-snoc : (ts : List Thread) (t : Thread) → All Waits ts → Waits t → All Waits (ts ++ t ∷ [])
Waits-snoc [] t a w = (w, tt)
Waits-snoc (u ∷ ts) t a w = (a.0, Waits-snoc ts t a.1 w)

Shape-snoc :
    (stat : State) (r : Bool) (u t : Thread) (ts : List Thread)
    → Shape stat r (u ∷ ts)
    → Shape stat r (u ∷ (ts ++ t ∷ []))
Shape-snoc unknown r u t ts s = s
Shape-snoc free r u t ts s = absurd (ground (arith, s))
Shape-snoc locked r u t ts s = s
Shape-snoc acquiring r u t ts s = s
Shape-snoc releasing r u t ts s = s

acquire_first-Fine :
    (stat : State) (i : LockInfo) (o r : Bool) (id : ℕ)
    → i.stat ≡ stat
    → Fine stat o r []
    → Fine (acquire_first i stat id).stat o r (acquire_first i stat id).threads
unfolding acquire_first
acquire_first-Fine unknown i o r id e f = record {
  behind = tt;
  shape = (f.shape.0, inl refl);
  owns = f.owns;
}
acquire_first-Fine free i o r id e f = record {
  behind = tt;
  shape = (f.shape.0, inl refl);
  owns = f.owns;
}
acquire_first-Fine releasing i o r id e f =
    subst (λ k. Fine k o r (thread_at id (asleep freed) ∷ [])) (sym e)
      (record { behind = tt; shape = ground (arith, f.shape); owns = f.owns })
acquire_first-Fine locked i o r id e f = absurd (f.shape.1)
acquire_first-Fine acquiring i o r id e f = absurd (f.shape.1)

pub acquire-Fine :
    (i : LockInfo) (ts : List Thread) (o r : Bool) (id : ℕ)
    → Fine i.stat o r ts
    → Fine (acquire_from i ts id).stat o r (acquire_from i ts id).threads
unfolding acquire_from
acquire-Fine i (u ∷ ts) o r id f = record {
  behind = Waits-snoc ts (thread_at id (asleep turn)) f.behind refl;
  shape = Shape-snoc i.stat r u (thread_at id (asleep turn)) ts f.shape;
  owns = f.owns;
}
acquire-Fine i [] o r id f = acquire_first-Fine i.stat i o r id refl f
