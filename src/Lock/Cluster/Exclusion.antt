-- ===== src/Lock/Cluster/Exclusion.antt =====
-- lock_server_cache.cc and lock_client_cache.cc: who holds a lock, over all clients.
use cse_labs.Prelude.{◌≡◌, ◌≢◌, sym, ◌∙◌, some, [], arith, Bytes}
use cse_labs.Lock.Client.{locked, holding}
use cse_labs.Lock.Client.Shape.{holding-locked}
use cse_labs.Lock.Cluster.{Node, Cluster, IsAt, Reach}
use cse_labs.Lock.Cluster.Roles.{Role, kept, revoked, Plays}
use cse_labs.Lock.Cluster.Phases.{Phase}
use cse_labs.Lock.Cluster.Steps.{at_front}
use cse_labs.Lock.Cluster.Invariant.{IsSound, Reach-IsSound}

-- A thread of the client has returned from `acquire` and not called `release`.
abbrev pub Holds : Node → Type 0
Holds n = IsAt n.client (λ t. t.point ≡ holding)

-- The holder is the first thread of the client that the server takes for the owner.
holder-owner :
    (s : Cluster) (c : Bytes)
    → IsSound s
    → c ≢ []
    → (h : Holds (s.nodes c)) → (h.0 ≡ []) × (s.server.owner ≡ c)
holder-owner s c h n (before, t, after, e, p) =
    let k = s.nodes c in
    let (role, plays, phase) = h.agrees c n in
    let (first, at, h1) =
      at_front role k.client k.wire before t after (h.fine c) e (ground (arith, p)) phase in
    let st = (holding-locked k.client.info.stat k.client.owned k.client.revoking t after at p).0 in
    (first, by_role role plays (rw st at h1))
  where
    by_role :
        (role : Role)
        → Plays role s.server c
        → Phase role locked
            (s.nodes c).client.info.msg
            (some t.point)
            (s.nodes c).client.revoking
            (s.nodes c).wire.link
            (s.nodes c).wire.revokes
            (s.nodes c).wire.retries
        → s.server.owner ≡ c
    by_role kept p q = p.1
    by_role revoked p q = p.1
    by_role _ p q = absurd (ground (arith, q))

-- In every state that the server of a lock, its clients and their threads can reach, whatever the
-- delays and the order of calls, answers and callbacks: two threads that hold the lock are threads of
-- the same client, the owner to the server, and both are the first of its list.
pub cluster_exclusion :
    {s : Cluster} (c d : Bytes)
    → Reach s
    → c ≢ []
    → d ≢ []
    → (p : Holds (s.nodes c)) → (q : Holds (s.nodes d))
    → (c ≡ d) × (s.server.owner ≡ c) × (p.0 ≡ []) × (q.0 ≡ [])
cluster_exclusion {s} c d r m n p q =
    let sound = Reach-IsSound r in
    let (x, o) = holder-owner s c sound m p in
    let (y, w) = holder-owner s d sound n q in (sym o ∙ w, o, x, y)
