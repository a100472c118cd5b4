-- ===== src/Lock/Client/Threads.antt =====
-- The threads of a client that share one lock of the caching server, as they and the server's calls
-- come one after the other. `owned` is whether the server has granted the lock and not taken it back,
-- `revoking` whether a revoke waits for the answer to its release.
use cse_labs.Prelude.{ℕ, ◌≡◌, Bool, true, false, ◌||◌, some, List, ◌∷◌, ◌++◌}
use cse_labs.Lock.Protocol.{Status, ok}
use cse_labs.Lock.Client.{
  acquiring, LockInfo, new_lockinfo, Thread, awake, calling, holding, leaving, Place, Ran, acquire,
  go_on, answered, release, released, revoke_handler, revoked, retry_handler,
}

pub record System : Type 0 where
  pub info : LockInfo
  pub owned : Bool
  pub revoking : Bool

-- A thread of the list has gone on.
abbrev pub moved : LockInfo → List Thread → Thread → List Thread → Ran → LockInfo
moved i before t after r = record i {
  stat = r.stat;
  msg = r.msg;
  threads = before ++ record t { point = r.point } ∷ after;
}

abbrev pub granted : Status → Bool → Bool
granted ok owned = true
granted _ owned = owned

pub data Step (s : System) : System → Type 0 where
  acquires : (id : ℕ) → Step s (record s { info = acquire s.info id })
  goes_on :
      (before : List Thread) (t : Thread) (after : List Thread) (place : Place) (r : Ran)
      → s.info.threads ≡ before ++ t ∷ after
      → t.point ≡ awake place
      → go_on place s.info.stat s.info.msg ≡ some r
      → Step s (record s { info = moved s.info before t after r })
  answers :
      (before : List Thread) (t : Thread) (after : List Thread) (status : Status) (r : Ran)
      → s.info.threads ≡ before ++ t ∷ after
      → t.point ≡ calling
      → answered status s.info.stat s.info.msg ≡ some r
      → Step s (record s { info = moved s.info before t after r; owned = granted status s.owned })
  releases :
      (before : List Thread) (t : Thread) (after : List Thread) (i : LockInfo)
      → s.info.threads ≡ before ++ t ∷ after
      → t.point ≡ holding
      → release s.info s.info.msg before t after ≡ some i
      → Step s (record s { info = i })
  gives_back :
      (before : List Thread) (t : Thread) (after : List Thread) (i : LockInfo)
      → s.info.threads ≡ before ++ t ∷ after
      → t.point ≡ leaving
      → released s.info ≡ some i
      → Step s (record s { info = i; owned = false })
  revokes : Step s (record s {
    info = (revoke_handler s.info s.info.stat).0;
    revoking = (revoke_handler s.info s.info.stat).1 || s.revoking;
  })
  revoke_ends :
      s.revoking ≡ true → Step s (record { info = revoked s.info; owned = false; revoking = false })
  -- `retry_handler` itself does not look at the state: it signals the first of the list, whatever that
  -- is. A retry is a step only while the client is acquiring; that the server sends no other is a
  -- matter of the server, whose steps with its clients are in Lock/Cluster.
  retries :
      (i : LockInfo)
      → s.info.stat ≡ acquiring
      → retry_handler s.info s.info.threads ≡ some i
      → Step s (record s { info = i })

abbrev pub initial : System
initial = record { info = new_lockinfo; owned = false; revoking = false }

pub data Reach : System → Type 0 where
  begin : Reach initial
  next : {s t : System} → Reach s → Step s t → Reach t
