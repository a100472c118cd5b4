-- ===== src/Lock/Cluster/Tests.antt =====
-- Two clients ask for a lock: the first one gets it, and the server sends it a revoke.
use cse_labs.Prelude.{◌≡◌, ◌≢◌, refl, [], ◌∷◌, arith, Bytes, bytes_eq, true, false}
use cse_labs.StdMap.{member, add}
use cse_labs.Lock.Protocol.{ok, retry}
use cse_labs.Lock.Cache.{
  Reply, locked, revoking, no_call, revoke_call, acquire_info, acquire_in, enqueue, empty,
}
use cse_labs.Lock.Client as client
use cse_labs.Lock.Client.{thread_at, calling, holding}
use cse_labs.Lock.Client.Threads.{acquires, answers, System}
use cse_labs.Lock.Cluster.{
  Cluster, new_cluster, acquire_answered, quiet, served, update, steps, serves_acquire, Reach,
  begin, next,
}
use cse_labs.Lock.Cluster.Exclusion.{Holds, cluster_exclusion}
use cse_labs.Lock.Cluster.Progress.{Busy, grant_due, no_deadlock}
use cse_labs.Lock.Cluster.Served.{Served, Busy-Served}

abbrev first : Bytes
first = 1 ∷ []

abbrev second : Bytes
second = 2 ∷ []

abbrev calls : System
calls = record {
  info = record {
    stat = client.acquiring;
    msg = client.no_message;
    threads = thread_at 1 calling ∷ [];
  };
  owned = false;
  revoking = false;
}

abbrev call_of : Cluster → Bytes → Cluster
call_of s c = record s {
  nodes = update s.nodes c (record { client = calls; wire = (s.nodes c).wire });
}

abbrev granted : Reply
granted = record {
  info = record { owner = first; retrying_cid = []; waiting_cids = []; stat = locked };
  status = ok;
  callback = no_call;
}

abbrev waits : Reply
waits = record {
  info = record { owner = first; retrying_cid = []; waiting_cids = second ∷ []; stat = revoking };
  status = retry;
  callback = revoke_call first;
}

abbrev asked_once : Cluster
asked_once = served (call_of new_cluster first) first (acquire_answered ok) granted

abbrev owned : Cluster
owned = record asked_once {
  nodes = update asked_once.nodes first (record {
    client = record {
      info = record {
        stat = client.locked;
        msg = client.no_message;
        threads = thread_at 1 holding ∷ [];
      };
      owned = true;
      revoking = false;
    };
    wire = record { link = quiet; revokes = 0; retries = 0 };
  });
}

abbrev asked_twice : Cluster
asked_twice = call_of owned second

abbrev called_back : Cluster
called_back = served asked_twice second (acquire_answered retry) waits

first_named : first ≢ []
first_named = ground arith

second_named : second ≢ []
second_named = ground arith

called_back-Reach : Reach called_back
unfolding bytes_eq client.acquire client.acquire_from client.acquire_first client.answered
    acquire_info acquire_in enqueue empty member add
called_back-Reach =
    next
      (next
        (next
          (next (next begin (steps first _ first_named (acquires 1) refl)) (
            serves_acquire first first_named (refl, ([], thread_at 1 calling, [], refl, refl))
              refl))
          (steps first _ first_named
            (answers [] (thread_at 1 calling) [] ok
              (record { stat = client.locked; msg = client.no_message; point = holding }) refl refl
              refl)
            (refl, refl)))
        (steps second _ second_named (acquires 1) refl))
      (serves_acquire second second_named (refl, ([], thread_at 1 calling, [], refl, refl)) refl)

first-Holds : Holds (called_back.nodes first)
unfolding bytes_eq
first-Holds = ([], thread_at 1 holding, [], refl, refl)

cluster_exclusion_example :
    (first ≡ first)
    × (called_back.server.owner ≡ first)
    × (first-Holds.0 ≡ [])
    × (first-Holds.0 ≡ [])
cluster_exclusion_example =
    cluster_exclusion first first called_back-Reach first_named first_named first-Holds first-Holds

second_waits : (called_back.nodes second).client.info.threads ≢ []
unfolding bytes_eq
second_waits = ground arith

no_deadlock_example : (d : Bytes) × (d ≢ []) × Busy (called_back.nodes d)
no_deadlock_example = no_deadlock second called_back-Reach second_named second_waits

second_answered : Busy (called_back.nodes second)
unfolding bytes_eq
second_answered = grant_due retry refl

Busy-Served_example : Served called_back second second_answered
Busy-Served_example = Busy-Served second called_back-Reach second_named second_answered
