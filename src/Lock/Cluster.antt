-- ===== src/Lock/Cluster.antt =====
-- lock_server_cache.cc and lock_client_cache.cc: the server of one lock with all its clients and their
-- threads. A call is served once and answered once, a callback is handled once (rpc/rpc.cc), after any
-- time and in any order.
mod Roles
mod Phases
mod Moves
mod Steps
mod Agreement
pub mod Invariant
pub mod Exclusion
pub mod Progress
pub mod Served
mod Tests
use cse_labs.Prelude.{
  ℕ, zero, suc, ◌+◌, ◌≡◌, ◌≢◌, ◌⊎◌, Bool, true, Option, some, List, [], ◌∷◌, ◌++◌, if◌then◌else◌,
  Bytes, bytes_eq,
}
use cse_labs.Lock.Protocol.{Status}
use cse_labs.Lock.Cache.{
  LockInfo, new_lockinfo, Reply, Callback, no_call, revoke_call, retry_call, acquire_info,
  release_info,
}
use cse_labs.Lock.Client.{Thread, calling, leaving}
use cse_labs.Lock.Client.Threads as client

-- What became of the call of a client: nothing yet, or an answer is on its way.
pub data Link : Type 0 where
  quiet release_answered : Link
  acquire_answered : Status → Link

-- A client's call, and the callbacks to it that are on their way.
pub record Wire : Type 0 where
  pub link : Link
  pub revokes : ℕ
  pub retries : ℕ

pub record Node : Type 0 where
  pub client : client.System
  pub wire : Wire

pub record Cluster : Type 0 where
  pub server : LockInfo
  pub nodes : Bytes → Node

abbrev new_node : Node
new_node = record {
  client = client.initial;
  wire = record { link = quiet; revokes = 0; retries = 0 };
}

abbrev pub new_cluster : Cluster
new_cluster = record { server = new_lockinfo; nodes = λ _. new_node }

-- What a step of a client takes from its wire.
abbrev pub Uses : {s t : client.System} → client.Step s t → Wire → Wire → Type 0
Uses (client.answers _ _ _ status _ _ _ _) w v =
    (w.link ≡ acquire_answered status) × (v ≡ record w { link = quiet })
Uses (client.gives_back _ _ _ _ _ _ _) w v =
    (w.link ≡ release_answered) × (v ≡ record w { link = quiet })
Uses (client.revoke_ends _) w v = (w.link ≡ release_answered) × (v ≡ record w { link = quiet })
Uses client.revokes w v = (k : ℕ) × (w.revokes ≡ suc k) × (v ≡ record w { revokes = k })
Uses (client.retries _ _ _) w v = (k : ℕ) × (w.retries ≡ suc k) × (v ≡ record w { retries = k })
Uses _ w v = v ≡ w

-- Some thread of the client has got there.
abbrev pub IsAt : client.System → (Thread → Type 0) → Type 0
IsAt s P =
    (before : List Thread) × (t : Thread) × (after : List Thread) × (s.info.threads
      ≡ before ++ t ∷ after)
    × P t

-- A call to the server is on its way.
abbrev pub CallsAcquire : Node → Type 0
CallsAcquire n = (n.wire.link ≡ quiet) × IsAt n.client (λ t. t.point ≡ calling)

abbrev pub CallsRelease : Node → Type 0
CallsRelease n =
    (n.wire.link ≡ quiet) × (IsAt n.client (λ t. t.point ≡ leaving) ⊎ (n.client.revoking ≡ true))

abbrev pub update {ℓ} : {A : Type ℓ} → (Bytes → A) → Bytes → A → Bytes → A
update f c x d = if bytes_eq c d then x else f d

abbrev pub answer : Node → Link → Node
answer n l = record n { wire = record n.wire { link = l } }

-- The callback of the server is on its way to the client that it names.
abbrev pub sent : Callback → Bytes → Node → Node
sent no_call d n = n
sent (revoke_call c) d n =
    if bytes_eq c d then record n { wire = record n.wire { revokes = n.wire.revokes + 1 } } else n
sent (retry_call c) d n =
    if bytes_eq c d then record n { wire = record n.wire { retries = n.wire.retries + 1 } } else n

-- The server has dealt with a call of a client.
abbrev pub served : Cluster → Bytes → Link → Reply → Cluster
served s c l r = record {
  server = r.info;
  nodes = λ d. sent r.callback d (update s.nodes c (answer (s.nodes c) l) d);
}

pub data Step (s : Cluster) : Cluster → Type 0 where
  steps :
      (c : Bytes) {t : client.System} (w : Wire)
      → c ≢ []
      → (m : client.Step (s.nodes c).client t) → Uses m (s.nodes c).wire w
      → Step s (record s { nodes = update s.nodes c (record { client = t; wire = w }) })
  serves_acquire :
      (c : Bytes) {r : Reply}
      → c ≢ []
      → CallsAcquire (s.nodes c)
      → acquire_info s.server c ≡ some r
      → Step s (served s c (acquire_answered r.status) r)
  serves_release :
      (c : Bytes) {r : Reply}
      → c ≢ []
      → CallsRelease (s.nodes c)
      → release_info s.server c ≡ some r
      → Step s (served s c release_answered r)

pub data Reach : Cluster → Type 0 where
  begin : Reach new_cluster
  next : {s t : Cluster} → Reach s → Step s t → Reach t
