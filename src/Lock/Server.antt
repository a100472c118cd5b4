-- ===== src/Lock/Server.antt =====
-- lock_server.h and lock_server.cc: the lock server whose `acquire` blocks. A thread runs under the
-- server's mutex from its call, or from a wake-up, to its return or to the next wait.
pub mod Threads
pub mod Serial
mod Tests
use cse_labs.Prelude.{
  ℕ, Bool, true, false, Option, none, some, if◌then◌else◌, nat_key, List, [], ◌∷◌,
}
use cse_labs.StdMap.{Map, lookup, insert}
use cse_labs.Lock.Protocol.{Status, ok}

-- `conds` holds the locks whose condition variable was initialised.
pub record LockServer : Type 0 where
  pub nacquire : ℕ
  pub conds : List ℕ
  pub locks : Map ℕ Bool

-- `lock_server::lock_server`
abbrev pub new_lock_server : LockServer
new_lock_server = record { nacquire = 0; conds = []; locks = [] }

-- `locks[lid]`, which is false for a lock that is not there.
unfoldable pub locked : LockServer → ℕ → Bool
locked s lid = elim (lookup lid s.locks) [ none ↦ false | some b ↦ b ]

abbrev pub set_lock : LockServer → ℕ → Bool → LockServer
set_lock s lid b = record s { locks = insert lid b s.locks }

-- The test of the loop in `acquire`: the thread takes the lock, or waits.
unfoldable pub retest : LockServer → ℕ → LockServer × Bool
unfolding locked
retest s lid = if locked s lid then (s, false) else (set_lock s lid true, true)

-- `acquire` from the call to the return (`true`) or to the first wait (`false`).
unfoldable pub acquire : LockServer → ℕ → LockServer × Bool
unfolding retest
acquire s lid = elim (lookup lid s.locks) [
  | none ↦ (set_lock (record s { conds = lid ∷ s.conds }) lid true, true)
  | some b ↦ retest s lid
]

-- `release`; the signal that it sends is a matter of the threads.
unfoldable pub release : LockServer → ℕ → LockServer
release s lid = set_lock s lid false

-- `stat`
unfoldable pub stat : LockServer → Status × ℕ
stat s = (ok, s.nacquire)

-- A call by a handler that is served alone: `none` means that it waits.
abbrev pub granted : LockServer × Bool → Option LockServer
granted (s, true) = some s
granted (s, false) = none
