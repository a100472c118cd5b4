-- ===== src/Lock/Cluster/Served.antt =====
-- lock_server_cache.cc and lock_client_cache.cc: what is on its way is dealt with, and no check fails.
use cse_labs.Prelude.{
  ℕ, suc, ◌≡◌, ◌≢◌, ◌⊎◌, inl, inr, refl, ap, sym, subst, ◌∙◌, Bool, true, false, Option, some, List,
  [], ◌∷◌, ◌++◌, arith, Bytes,
}
use cse_labs.Lock.Protocol.{Status}
use cse_labs.Lock.Cache.{LockInfo as LockServerInfo, Reply, acquire_info, release_info}
use cse_labs.Lock.Cache.Invariant.{IsValid, acquire_info-IsValid, release_info-IsValid}
use cse_labs.Lock.Cache.Exclusion.{After-some}
use cse_labs.Lock.Client.{
  State, unknown, free, acquiring, releasing, LockInfo, Message, no_message, revoke_message, Point,
  calling, leaving, failed, Ran, go_on, answered, leave, release, released, retry_handler, Thread,
}
use cse_labs.Lock.Client.Threads.{System}
use cse_labs.Lock.Client.Shape.{Shape}
use cse_labs.Lock.Client.Turns.{Lawful, threads-Lawful, answered_runs}
use cse_labs.Lock.Cluster.{Link, acquire_answered, release_answered, Cluster, IsAt, Reach}
use cse_labs.Lock.Cluster.Roles.{Role, away, revoked, asked, Plays, acquire_info-MayAcquire}
use cse_labs.Lock.Cluster.Phases.{Phase, first_point}
use cse_labs.Lock.Cluster.Invariant.{Reach-IsSound, Reach-clients}
use cse_labs.Lock.Cluster.Agreement.{CallsAcquire-acquiring, CallsRelease-releasing}
use cse_labs.Lock.Cluster.Progress.{
  Busy, grant_due, taken_due, acquire_due, release_due, revoke_due, retry_due, holds, goes_on,
  front_at, Front-first_point,
}

-- What it takes to go on: the checks of the server, and the assertions of the client.
abbrev pub Served : (s : Cluster) (c : Bytes) → Busy (s.nodes c) → Type 0
Served s c (grant_due status _) =
    let i = (s.nodes c).client.info in
    IsAt (s.nodes c).client (λ t. t.point ≡ calling)
    × ((r : Ran) × (answered status i.stat i.msg ≡ some r))
Served s c (taken_due _) =
    let i = (s.nodes c).client.info in
    (IsAt (s.nodes c).client (λ t. t.point ≡ leaving) × ((j : LockInfo) × (released i ≡ some j)))
    ⊎ ((s.nodes c).client.revoking ≡ true)
Served s c (acquire_due _) = (r : Reply) × (acquire_info s.server c ≡ some r)
Served s c (release_due _) = (r : Reply) × (release_info s.server c ≡ some r)
Served s c (revoke_due _ _) = s.server.owner ≡ c
Served s c (retry_due _ _) =
    let i = (s.nodes c).client.info in
    (s.server.retrying_cid ≡ c)
    × (i.stat ≡ acquiring)
    × ((j : LockInfo) × (retry_handler i i.threads ≡ some j))
Served s c (holds (before, t, after, _, _)) =
    let i = (s.nodes c).client.info in (j : LockInfo) × (release i i.msg before t after ≡ some j)
Served s c (goes_on place _) =
    let i = (s.nodes c).client.info in
    (r : Ran) × (go_on place i.stat i.msg ≡ some r) × (r.point ≢ failed)

retry_due-asked :
    (role : Role) (stat : State) (m : Message) (p : Option Point) (b : Bool) (l : Link) (v t k : ℕ)
    → Phase role stat m p b l v t
    → t ≡ suc k
    → (role ≡ asked) × (stat ≡ acquiring)
retry_due-asked asked acquiring m p b l v t k h e = (refl, refl)
retry_due-asked _ _ m p b l v t k h e = absurd (ground (arith, h, e))

retry_handler_runs :
    (i : LockInfo) (b : Bool) (ts : List Thread)
    → Shape acquiring b ts
    → (j : LockInfo) × (retry_handler i ts ≡ some j)
unfolding retry_handler
retry_handler_runs i b [] h = absurd h.1
retry_handler_runs i b (t ∷ ts) h = (_, refl)

release_runs :
    (i : LockServerInfo) (c : Bytes)
    → IsValid i
    → Plays revoked i c
    → (r : Reply) × (release_info i c ≡ some r)
release_runs i c v p =
    let (r, e, _) =
      After-some (λ k. IsValid k.info) (release_info i c) (release_info-IsValid i c v p.0 p.1) in
    (r, e)

acquire_runs :
    (role : Role) (i : LockServerInfo) (c : Bytes)
    → IsValid i
    → c ≢ []
    → Plays role i c
    → (role ≡ away) ⊎ (role ≡ asked)
    → (r : Reply) × (acquire_info i c ≡ some r)
acquire_runs role i c v n p w =
    let may = acquire_info-MayAcquire role i c v n p w in
    let (r, e, _) =
      After-some (λ k. IsValid k.info) (acquire_info i c) (acquire_info-IsValid i c v may) in
    (r, e)

leave_runs :
    (b : Bool) (i : LockInfo) (before : List Thread) (t : Thread) (after : List Thread)
    (ts : List Thread)
    → ts ≡ before ++ t ∷ after
    → (j : LockInfo) × (leave b i ts ≡ some j)
unfolding leave
leave_runs b i [] t after [] e = cc
leave_runs b i (u ∷ before) t after [] e = cc
leave_runs b i before t after (u ∷ []) e = (_, refl)
leave_runs true i before t after (u ∷ w ∷ ts) e = (_, refl)
leave_runs false i before t after (u ∷ w ∷ ts) e = (_, refl)

client_release_runs :
    (i : LockInfo) (m : Message) (before : List Thread) (t : Thread) (after : List Thread)
    → i.threads ≡ before ++ t ∷ after
    → (j : LockInfo) × (release i m before t after ≡ some j)
unfolding release
client_release_runs i revoke_message before t after e = (_, refl)
client_release_runs i _ before t after e =
    leave_runs false (record i { stat = free }) before t after i.threads e

-- The state of a client to which an answer is on its way.
grant_due-acquiring :
    (role : Role) (stat : State) (m : Message) (p : Option Point) (b : Bool) (l : Link) (v t : ℕ)
    (status : Status)
    → Phase role stat m p b l v t
    → l ≡ acquire_answered status
    → (stat ≡ acquiring) × (p ≡ some calling)
grant_due-acquiring away acquiring m p b l v t status h e = absurd (ground (arith, h, e))
grant_due-acquiring _ acquiring m p b l v t status h e = ground (arith, h, e)
grant_due-acquiring _ _ m p b l v t status h e = absurd (ground (arith, h, e))

taken_due-releasing :
    (role : Role) (stat : State) (m : Message) (p : Option Point) (b : Bool) (l : Link) (v t : ℕ)
    → Phase role stat m p b l v t
    → l ≡ release_answered
    → stat ≡ releasing
taken_due-releasing _ releasing m p b l v t h e = refl
taken_due-releasing _ _ m p b l v t h e = absurd (ground (arith, h, e))

revoke_due-revoked :
    (role : Role) (stat : State) (m : Message) (p : Option Point) (b : Bool) (l : Link) (v t k : ℕ)
    → Phase role stat m p b l v t
    → v ≡ suc k
    → role ≡ revoked
revoke_due-revoked revoked stat m p b l v t k h e = refl
revoke_due-revoked _ stat m p b l v t k h e = absurd (ground (arith, h, e))

taken_runs :
    (s : System)
    → Shape releasing s.revoking s.info.threads
    → (IsAt s (λ t. t.point ≡ leaving) × ((j : LockInfo) × (released s.info ≡ some j)))
      ⊎ (s.revoking ≡ true)
unfolding released
taken_runs s (inr h) = inr h.0
taken_runs s (inl h) =
    let (p, e, q) = Front-first_point _ s.info.threads h.1 in
    let at = front_at s leaving s.info.threads refl (e ∙ ap some q) in
    inl (
      at,
      leave_runs true (record s.info { stat = unknown; msg = no_message }) at.0 at.1 at.2
          s.info.threads at.3,
    )

-- Nothing fails: in every state that the server of a lock, its clients and their threads can reach, an
-- acquire or a release that is on its way passes the checks of the server; a revoke goes to the
-- owner, and a retry to the client that the server chose, which is acquiring and has a thread to
-- wake; an answer finds the thread that called; and a thread that holds the lock can release it,
-- and one that was signalled goes on, without a failed assertion and without IOERR.
pub Busy-Served :
    {s : Cluster} (c : Bytes) → Reach s → c ≢ [] → (b : Busy (s.nodes c)) → Served s c b
Busy-Served {s} c r n (grant_due status e) =
    let (role, _, f) = (Reach-IsSound r).agrees c n in
    let k = s.nodes c in
    let i = k.client.info in
    let (st, fr) =
      grant_due-acquiring role i.stat i.msg (first_point i.threads) k.client.revoking k.wire.link
        k.wire.revokes k.wire.retries status f e in
    (
      front_at k.client calling i.threads refl fr,
      subst (λ x. (r : Ran) × (answered status x i.msg ≡ some r)) (sym st)
          (answered_runs status i.msg),
    )
Busy-Served {s} c r n (taken_due e) =
    let h = Reach-IsSound r in
    let (role, _, f) = h.agrees c n in
    let k = s.nodes c in
    let i = k.client.info in
    let st =
      taken_due-releasing role i.stat i.msg (first_point i.threads) k.client.revoking k.wire.link
        k.wire.revokes k.wire.retries f e in
    taken_runs k.client (subst (λ x. Shape x k.client.revoking i.threads) st (h.fine c).shape)
Busy-Served {s} c r n (acquire_due q) =
    let h = Reach-IsSound r in
    let (role, p, f) = h.agrees c n in
    acquire_runs role s.server c h.valid n p
      (CallsAcquire-acquiring role (s.nodes c) (h.fine c) f q).2
Busy-Served {s} c r n (release_due q) =
    let h = Reach-IsSound r in
    let (role, p, f) = h.agrees c n in
    let which = (CallsRelease-releasing role (s.nodes c) (h.fine c) f q).1 in
    release_runs s.server c h.valid (subst (λ k. Plays k s.server c) which p)
Busy-Served {s} c r n (revoke_due j e) =
    let (role, p, f) = (Reach-IsSound r).agrees c n in
    let k = s.nodes c in
    let i = k.client.info in
    let which =
      revoke_due-revoked role i.stat i.msg (first_point i.threads) k.client.revoking k.wire.link
        k.wire.revokes k.wire.retries j f e in
    (subst (λ x. Plays x s.server c) which p).1
Busy-Served {s} c r n (retry_due j e) =
    let h = Reach-IsSound r in
    let (role, p, f) = h.agrees c n in
    let k = s.nodes c in
    let i = k.client.info in
    let (which, st) =
      retry_due-asked role i.stat i.msg (first_point i.threads) k.client.revoking k.wire.link
        k.wire.revokes k.wire.retries j f e in
    (
      (subst (λ x. Plays x s.server c) which p).1,
      st,
      retry_handler_runs i k.client.revoking i.threads
          (subst (λ x. Shape x k.client.revoking i.threads) st (h.fine c).shape),
    )
Busy-Served {s} c r n (holds (before, t, after, e, p)) =
    let i = (s.nodes c).client.info in client_release_runs i i.msg before t after e
Busy-Served {s} c r n (goes_on place (before, t, after, e, p)) =
    let i = (s.nodes c).client.info in
    subst (λ x. Lawful x i.stat i.msg (s.nodes c).client.owned before after) p
      (threads-Lawful before t after (Reach-clients r c) e)
