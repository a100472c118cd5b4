-- ===== src/Lock/Client/Tests.antt =====
-- Two threads ask for a lock; the first one gets it.
use cse_labs.Prelude.{refl, true, false, [], ◌∷◌}
use cse_labs.Lock.Protocol.{ok}
use cse_labs.Lock.Client.{
  no_message, locked, asleep, turn, calling, holding, Thread, thread_at, acquire, acquire_from,
  acquire_first, answered,
}
use cse_labs.Lock.Client.Threads.{System, Reach, begin, next, acquires, answers}
use cse_labs.Lock.Client.Turns.{Lawful, threads-Lawful}

abbrev waiter : Thread
waiter = thread_at 2 (asleep turn)

abbrev granted_system : System
granted_system = record {
  info = record { stat = locked; msg = no_message; threads = thread_at 1 holding ∷ waiter ∷ [] };
  owned = true;
  revoking = false;
}

granted_Reach : Reach granted_system
unfolding acquire acquire_from acquire_first answered
granted_Reach = next (next (next begin (acquires 1)) (acquires 2)) (
    answers [] (thread_at 1 calling) (waiter ∷ []) ok
      (record { stat = locked; msg = no_message; point = holding }) refl refl refl)

threads-Lawful_example : Lawful holding locked no_message true [] (waiter ∷ [])
threads-Lawful_example = threads-Lawful [] (thread_at 1 holding) (waiter ∷ []) granted_Reach refl
