-- ===== src/Lock/Client.antt =====
-- lock_client_cache.h and lock_client_cache.cc: a client of the caching lock server, for one of its
-- locks. Each thread has a condition variable of its own, on which only it sleeps; a thread that is
-- signalled goes on later. The code of a thread between two points where the mutex is free is one
-- operation here. `none` is an assertion that fails, or a read of a list that is empty.
pub mod Threads
pub mod Shape
pub mod Leaving
pub mod Turns
mod Tests
use cse_labs.Prelude.{ℕ, Bool, true, false, Option, none, some, List, [], ◌∷◌, ◌++◌}
use cse_labs.Lock.Protocol.{Status, ok, retry}

pub data Message : Type 0 where
  no_message retry_message revoke_message : Message

-- `NONE` to `RELEASEING`
pub data State : Type 0 where
  unknown free locked acquiring releasing : State

-- The waits: for the thread before to leave, for the lock to be given back, for the server's retry.
pub data Place : Type 0 where
  turn freed retried : Place

-- Where a thread is: it sleeps, was signalled, has called the server's acquire, has returned with the
-- lock, has called the server's release, or has returned with IOERR.
pub data Point : Type 0 where
  asleep awake : Place → Point
  calling holding leaving failed : Point

-- `thread`, with where its thread is.
pub record Thread : Type 0 where
  pub id : ℕ
  pub point : Point

pub record LockInfo : Type 0 where
  pub stat : State
  pub msg : Message
  pub threads : List Thread

abbrev pub new_lockinfo : LockInfo
new_lockinfo = record { stat = unknown; msg = no_message; threads = [] }

abbrev pub thread_at : ℕ → Point → Thread
thread_at id point = record { id = id; point = point }

-- `pthread_cond_signal` on the thread's variable: it is lost when the thread does not sleep.
abbrev pub signalled : Point → Point
signalled (asleep place) = awake place
signalled point = point

abbrev pub signal : Thread → Thread
signal t = record t { point = signalled t.point }

unfoldable pub signal_front : List Thread → List Thread
signal_front [] = []
signal_front (t ∷ ts) = signal t ∷ ts

-- `acquire` of a lock that no thread of the client waits for.
unfoldable pub acquire_first : LockInfo → State → ℕ → LockInfo
acquire_first i free id = record i { stat = locked; threads = thread_at id holding ∷ [] }
acquire_first i unknown id = record i { stat = acquiring; threads = thread_at id calling ∷ [] }
acquire_first i _ id = record i { threads = thread_at id (asleep freed) ∷ [] }

-- `acquire`, up to where it returns, calls the server or sleeps.
unfoldable pub acquire_from : LockInfo → List Thread → ℕ → LockInfo
unfolding acquire_first
acquire_from i [] id = acquire_first i i.stat id
acquire_from i (t ∷ ts) id = record i { threads = (t ∷ ts) ++ thread_at id (asleep turn) ∷ [] }

unfoldable pub acquire : LockInfo → ℕ → LockInfo
unfolding acquire_from
acquire i id = acquire_from i i.threads id

-- What a thread does when it goes on: the state, the message and the point it gets to.
pub record Ran : Type 0 where
  pub stat : State
  pub msg : Message
  pub point : Point

-- The `switch` of `acquire`, after the wait for the turn.
unfoldable pub take_turn : State → Message → Ran
take_turn free msg = record { stat = locked; msg = msg; point = holding }
take_turn locked msg = record { stat = locked; msg = msg; point = holding }
take_turn unknown msg = record { stat = acquiring; msg = msg; point = calling }
take_turn stat msg = record { stat = stat; msg = msg; point = failed }

-- The `while` of `wait_lock`: the server is called again, or the assertion behind the loop fails.
unfoldable pub call_again : State → Option Ran
call_again acquiring = some (record { stat = acquiring; msg = no_message; point = calling })
call_again _ = none

-- A thread that was signalled goes on.
unfoldable pub go_on : Place → State → Message → Option Ran
unfolding take_turn call_again
go_on turn stat msg = some (take_turn stat msg)
go_on freed stat msg = some (record { stat = acquiring; msg = msg; point = calling })
go_on retried stat msg = call_again stat

-- `wait_lock`, when the server has answered.
unfoldable pub answered : Status → State → Message → Option Ran
unfolding call_again
answered ok stat msg = some (record { stat = locked; msg = msg; point = holding })
answered _ stat no_message = some (record { stat = stat; msg = no_message; point = asleep retried })
answered _ stat _ = call_again stat

-- The end of `release`: the first thread leaves, and the next one is signalled.
unfoldable pub leave : Bool → LockInfo → List Thread → Option LockInfo
unfolding signal_front
leave revoked i [] = none
leave revoked i (t ∷ []) = some (record i { threads = [] })
leave true i (t ∷ u ∷ ts) = some (record i { threads = signal_front (u ∷ ts) })
leave false i (t ∷ u ∷ ts) = some (record i { stat = locked; threads = signal_front (u ∷ ts) })

-- `release`: with a revoke the server is called, else the thread leaves at once.
unfoldable pub release : LockInfo → Message → List Thread → Thread → List Thread → Option LockInfo
unfolding leave
release i revoke_message before t after =
    some (record i { stat = releasing; threads = before ++ record t { point = leaving } ∷ after })
release i _ before t after = leave false (record i { stat = free }) i.threads

-- `release` after the server's answer.
unfoldable pub released : LockInfo → Option LockInfo
unfolding leave
released i = leave true (record i { stat = unknown; msg = no_message }) i.threads

-- `revoke_handler`, and whether it calls the server's release.
unfoldable pub revoke_handler : LockInfo → State → LockInfo × Bool
revoke_handler i free = (record i { stat = releasing }, true)
revoke_handler i _ = (record i { msg = revoke_message }, false)

-- `revoke_handler` after the server's answer.
unfoldable pub revoked : LockInfo → LockInfo
unfolding signal_front
revoked i = record i { stat = unknown; threads = signal_front i.threads }

unfoldable pub retry_handler : LockInfo → List Thread → Option LockInfo
unfolding signal_front
retry_handler i [] = none
retry_handler i (t ∷ ts) = some (record i { msg = retry_message; threads = signal_front (t ∷ ts) })
