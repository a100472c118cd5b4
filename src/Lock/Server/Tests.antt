-- ===== src/Lock/Server/Tests.antt =====
-- Three threads and one lock.
use cse_labs.Prelude.{ℕ, ◌≡◌, refl, true, nat_key}
use cse_labs.StdMap.{lookup, insert}
use cse_labs.Lock.Server.{retest, acquire, release}
use cse_labs.Lock.Server.Threads.{
  System, Reach, start, later, calls, releases, wakes, awake, threads_exclusion, no_lost_wakeup,
}

-- Thread 0 holds lock 5, and threads 1 and 2 sleep on it.
crowd : (s : System) × Reach s
unfolding acquire lookup insert
crowd = (_, later (later (later start (calls 0 5 refl)) (calls 1 5 refl)) (calls 2 5 refl))

-- Thread 0 has released the lock, and thread 1 was woken.
released : (s : System) × Reach s
unfolding crowd acquire release lookup insert
released = (_, later crowd.1 (releases 0 5 refl (wakes 1 refl)))

threads_exclusion_example : ◌≡◌ {A = ℕ} 0 0
unfolding crowd acquire lookup insert
threads_exclusion_example = threads_exclusion crowd.1 0 0 5 refl refl

no_lost_wakeup_example :
    (j : ℕ) × (released.0.pc j ≡ awake 5) × ((retest released.0.server 5).1 ≡ true)
unfolding released crowd acquire release lookup insert
no_lost_wakeup_example = no_lost_wakeup released.1 2 5 refl refl
