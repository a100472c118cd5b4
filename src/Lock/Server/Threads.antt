-- ===== src/Lock/Server/Threads.antt =====
-- The threads that call the blocking lock server.
use cse_labs.Prelude.{
  ℕ, ◌≡◌, ◌≢◌, Bool, true, false, arith, ◌==◌, if◌then◌else◌, nat_key, inl, inr, Bool-cases,
}
use cse_labs.StdMap.{lookup-insert}
use cse_labs.Lock.Server.{LockServer, new_lock_server, locked, retest, acquire, release}

pub locked-acquire :
    (s : LockServer) (lid j : ℕ)
    → ((acquire s lid).1 ≡ (if locked s lid then false else true))
      × (locked (acquire s lid).0 j ≡ (if lid == j then true else locked s j))
unfolding acquire locked
locked-acquire s lid j = ground (arith, lookup-insert lid j true s.locks)

locked-retest :
    (s : LockServer) (lid j : ℕ)
    → ((retest s lid).1 ≡ (if locked s lid then false else true))
      × (locked (retest s lid).0 j ≡ (if lid == j then true else locked s j))
unfolding retest locked
locked-retest s lid j = ground (arith, lookup-insert lid j true s.locks)

pub locked-release :
    (s : LockServer) (lid j : ℕ)
    → locked (release s lid) j ≡ (if lid == j then false else locked s j)
unfolding release locked
locked-release s lid j = ground (arith, lookup-insert lid j false s.locks)

-- Where a thread stands. `awake` has left the wait, by a signal or without one, and is about to test
-- the lock again.
pub data Pc : Type 0 where
  idle : Pc
  asleep awake holding : ℕ → Pc

pub record System : Type 0 where
  pub server : LockServer
  pub pc : ℕ → Pc

abbrev pub update {ℓ} : {A : Type ℓ} → (ℕ → A) → ℕ → A → ℕ → A
update f i a j = if i == j then a else f j

abbrev pub initial : System
initial = record { server = new_lock_server; pc = λ _. idle }

abbrev entered : Bool → ℕ → Pc
entered true lid = holding lid
entered false lid = asleep lid

-- A thread that the signal of a release wakes, or that there is none to wake.
pub data Signal (lid : ℕ) (pc : ℕ → Pc) : (ℕ → Pc) → Type 0 where
  nobody : ((j : ℕ) → pc j ≢ asleep lid) → Signal lid pc pc
  wakes : (j : ℕ) → pc j ≡ asleep lid → Signal lid pc (update pc j (awake lid))

pub data Step (s : System) : System → Type 0 where
  calls :
      (i lid : ℕ)
      → s.pc i ≡ idle
      → Step s (record {
        server = (acquire s.server lid).0;
        pc = update s.pc i (entered (acquire s.server lid).1 lid);
      })
  retests :
      (i lid : ℕ)
      → s.pc i ≡ awake lid
      → Step s (record {
        server = (retest s.server lid).0;
        pc = update s.pc i (entered (retest s.server lid).1 lid);
      })
  -- a wake-up without a signal, which POSIX permits
  stirs : (i lid : ℕ) → s.pc i ≡ asleep lid → Step s (record s { pc = update s.pc i (awake lid) })
  releases :
      (i lid : ℕ) {pc : ℕ → Pc}
      → s.pc i ≡ holding lid
      → Signal lid (update s.pc i idle) pc
      → Step s (record { server = release s.server lid; pc = pc })

pub data Reach : System → Type 0 where
  start : Reach initial
  later : {s t : System} → Reach s → Step s t → Reach t

-- A lock is marked exactly while a thread holds it, no two threads hold one, and a lock that is free
-- while threads sleep on it has a thread awake that will test it.
pub record Inv (s : System) : Type 0 where
  pub marked : (i lid : ℕ) → s.pc i ≡ holding lid → locked s.server lid ≡ true
  pub alone : (i j lid : ℕ) → s.pc i ≡ holding lid → s.pc j ≡ holding lid → i ≡ j
  pub noticed :
      (i lid : ℕ)
      → s.pc i ≡ asleep lid
      → locked s.server lid ≡ false
      → (j : ℕ) × (s.pc j ≡ awake lid)

-- A thread that does not hold a lock tests `lid` and takes it or goes to sleep.
enters-Inv :
    (s : System) (i lid : ℕ) (t : LockServer) (taken : Bool)
    → taken ≡ (if locked s.server lid then false else true)
    → ((l : ℕ) → locked t l ≡ (if lid == l then true else locked s.server l))
    → ((l : ℕ) → s.pc i ≢ holding l)
    → ((l : ℕ) → s.pc i ≡ awake l → l ≡ lid)
    → Inv s
    → Inv (record { server = t; pc = update s.pc i (entered taken lid) })
enters-Inv s i lid t taken e f h a v = record {
  marked = λ j l q. ground (arith, f l, v.marked j l);
  alone = λ j k l p q. ground (arith, v.marked j l, v.marked k l, v.alone j k l);
  noticed = λ j l q g.
      let was : s.pc j ≡ asleep l = ground (arith, f l) in
      let (x, w) = v.noticed j l was (ground (arith, f l)) in (x, ground (arith, f l, a l));
}

stirs-Inv :
    (s : System) (i lid : ℕ)
    → s.pc i ≡ asleep lid
    → Inv s
    → Inv (record s { pc = update s.pc i (awake lid) })
stirs-Inv s i lid e v = record {
  marked = λ j l q. ground (arith, v.marked j l);
  alone = λ j k l p q. ground (arith, v.alone j k l);
  noticed = λ j l q g. elim (Bool-cases (lid == l)) [
    | inl z ↦ (i, ground arith)
    | inr z ↦ let (x, w) = v.noticed j l (ground arith) g in (x, ground arith)
  ];
}

releases-Inv :
    (s : System) (i lid : ℕ) {pc : ℕ → Pc}
    → s.pc i ≡ holding lid
    → Signal lid (update s.pc i idle) pc
    → Inv s
    → Inv (record { server = release s.server lid; pc = pc })
releases-Inv s i lid e (nobody none_asleep) v = record {
  marked = λ j l q. ground (arith, locked-release s.server lid l, v.marked j l, v.alone i j lid);
  alone = λ j k l p q. ground (arith, v.alone j k l);
  noticed = λ j l q g.
      let other : lid ≢ l = λ z. none_asleep j (ground arith) in
      let (x, w) = v.noticed j l (ground arith) (ground (arith, locked-release s.server lid l)) in
      (x, ground arith);
}
releases-Inv s i lid e (wakes k sleeping) v = record {
  marked = λ j l q. ground (arith, locked-release s.server lid l, v.marked j l, v.alone i j lid);
  alone = λ j m l p q. ground (arith, v.alone j m l);
  noticed = λ j l q g. elim (Bool-cases (lid == l)) [
    | inl z ↦ (k, ground arith)
    | inr z ↦
        let (x, w) = v.noticed j l (ground arith) (ground (arith, locked-release s.server lid l)) in
        (x, ground arith)
  ];
}

Step-Inv : {s t : System} → Step s t → Inv s → Inv t
Step-Inv {s} (calls i lid e) v =
    enters-Inv s i lid (acquire s.server lid).0 (acquire s.server lid).1
      (locked-acquire s.server lid 0).0 (λ l. (locked-acquire s.server lid l).1)
      (λ l p. ground arith) (λ l p. ground arith) v
Step-Inv {s} (retests i lid e) v =
    enters-Inv s i lid (retest s.server lid).0 (retest s.server lid).1
      (locked-retest s.server lid 0).0 (λ l. (locked-retest s.server lid l).1) (λ l p. ground arith)
      (λ l p. ground arith) v
Step-Inv {s} (stirs i lid e) v = stirs-Inv s i lid e v
Step-Inv {s} (releases i lid e w) v = releases-Inv s i lid e w v

initial-Inv : Inv initial
initial-Inv = record {
  marked = λ i lid e. cc;
  alone = λ i j lid e f. cc;
  noticed = λ i lid e f. ground arith;
}

pub Reach-Inv : {s : System} → Reach s → Inv s
Reach-Inv start = initial-Inv
Reach-Inv (later r st) = Step-Inv st (Reach-Inv r)

-- However the threads are scheduled and woken, no two threads hold a lock at once.
pub threads_exclusion :
    {s : System} → Reach s → (i j lid : ℕ) → s.pc i ≡ holding lid → s.pc j ≡ holding lid → i ≡ j
threads_exclusion r = (Reach-Inv r).alone

-- No wake-up is lost: whenever a thread sleeps on a lock that is free, some thread is awake that is
-- about to test that lock, and its test takes the lock.
pub no_lost_wakeup :
    {s : System}
    → Reach s
    → (i lid : ℕ) → s.pc i ≡ asleep lid
    → locked s.server lid ≡ false
    → (j : ℕ) × (s.pc j ≡ awake lid) × ((retest s.server lid).1 ≡ true)
no_lost_wakeup {s} r i lid e f =
    let (j, w) = (Reach-Inv r).noticed i lid e f in
    (j, w, ground (arith, (locked-retest s.server lid 0).0))
