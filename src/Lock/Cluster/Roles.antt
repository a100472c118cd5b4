-- ===== src/Lock/Cluster/Roles.antt =====
-- lock_server_cache.cc: what a client is to the server of a lock, and how a handler changes that.
use cse_labs.Prelude.{
  ◌≡◌, ◌≢◌, ◌⊎◌, refl, ap, sym, subst, ◌∙◌, true, false, some, List, [], ◌∷◌, arith, Bytes,
  bytes_eq_iff, bytes_eq_refl, bytes_key,
}
use cse_labs.StdMap.{member, member-add}
use cse_labs.Lock.Protocol.{ok, retry}
use cse_labs.Lock.Cache.{
  State, free, locked, revoking, retrying, LockInfo, Reply, Callback, no_call, revoke_call,
  retry_call, empty, acquire_in, acquire_info, hand_over, release_info,
}
use cse_labs.Lock.Cache.Invariant.{IsValid, IsConsistent, MayAcquire}
use cse_labs.Lock.Cache.Agreement.{release_info-some}

pub data Role : Type 0 where
  away kept revoked waits asked : Role

abbrev pub Plays : Role → LockInfo → Bytes → Type 0
Plays away i c = (i.owner ≢ c) × (member c i.waiting_cids ≡ false) × (i.retrying_cid ≢ c)
Plays kept i c = (i.stat ≡ locked) × (i.owner ≡ c)
Plays revoked i c = (i.stat ≡ revoking) × (i.owner ≡ c)
Plays waits i c = member c i.waiting_cids ≡ true
Plays asked i c = (i.stat ≡ retrying) × (i.retrying_cid ≡ c)

-- A callback that is not for this client.
abbrev pub NotFor : Callback → Bytes → Type 0
NotFor no_call d = Unit
NotFor (revoke_call c) d = c ≢ d
NotFor (retry_call c) d = c ≢ d

away_asks :
    (s : State) (i : LockInfo) (c : Bytes) (r : Reply)
    → i.stat ≡ s
    → IsConsistent s i
    → Plays away i c
    → acquire_in s i c ≡ some r
    → ((r.status ≡ ok) × Plays kept r.info c × NotFor r.callback c)
      ⊎ ((r.status ≡ retry) × Plays waits r.info c × NotFor r.callback c)
unfolding acquire_in empty
away_asks free i c r e v p q = ground (arith)
away_asks locked i c r e v p q = ground (arith, member-add c c i.waiting_cids, bytes_eq_refl c)
away_asks revoking i c r e v p q = ground (arith, member-add c c i.waiting_cids, bytes_eq_refl c)
away_asks retrying i c r e v p q =
    ground (arith, member-add c c i.waiting_cids, bytes_eq_refl c, bytes_eq_iff c i.retrying_cid)

asked_asks :
    (s : State) (i : LockInfo) (c : Bytes) (r : Reply)
    → i.stat ≡ s
    → Plays asked i c
    → acquire_in s i c ≡ some r
    → ((r.status ≡ ok) × Plays kept r.info c × (r.callback ≡ no_call))
      ⊎ ((r.status ≡ ok) × Plays revoked r.info c × (r.callback ≡ revoke_call c))
unfolding acquire_in
asked_asks retrying i c r e p q = ground (arith, bytes_eq_refl c, bytes_eq_iff c i.retrying_cid)
asked_asks free i c r e p q = absurd (ground (arith, e, p))
asked_asks locked i c r e p q = absurd (ground (arith, e, p))
asked_asks revoking i c r e p q = absurd (ground (arith, e, p))

someone_waits : (d : Bytes) (l : List Bytes) → member d l ≡ true → l ≢ []
unfolding member
someone_waits d [] p = absurd (ground (arith, p))
someone_waits d (x ∷ l) p = λ e. ground (arith, e)

-- What the acquire of one client is to another one.
abbrev Kept : Role → Reply → Bytes → Type 0
Kept role r d = Plays role r.info d × NotFor r.callback d

abbrev pub Apart : Role → Reply → Bytes → Type 0
Apart kept r d = Kept kept r d ⊎ (Plays revoked r.info d × (r.callback ≡ revoke_call d))
Apart role r d = Kept role r d

other_asks :
    (role : Role) (s : State) (i : LockInfo) (c d : Bytes) (r : Reply)
    → i.stat ≡ s
    → IsConsistent s i
    → c ≢ d
    → d ≢ []
    → Plays role i d
    → acquire_in s i c ≡ some r
    → Apart role r d
unfolding acquire_in empty
other_asks away free i c d r e v n m p q = ground arith
other_asks away locked i c d r e v n m p q =
    ground (arith, member-add c d i.waiting_cids, bytes_eq_iff c d)
other_asks away revoking i c d r e v n m p q =
    ground (arith, member-add c d i.waiting_cids, bytes_eq_iff c d)
other_asks away retrying i c d r e v n m p q =
    ground (arith, member-add c d i.waiting_cids, bytes_eq_iff c d, bytes_eq_iff c i.retrying_cid)
other_asks kept free i c d r e v n m p q = ground arith
other_asks kept locked i c d r e v n m p q = ground arith
other_asks kept revoking i c d r e v n m p q = ground arith
other_asks kept retrying i c d r e v n m p q = ground arith
other_asks revoked free i c d r e v n m p q = ground arith
other_asks revoked locked i c d r e v n m p q = ground arith
other_asks revoked revoking i c d r e v n m p q = ground arith
other_asks revoked retrying i c d r e v n m p q = ground arith
other_asks waits free i c d r e v n m p q = absurd (someone_waits d i.waiting_cids p v.2)
other_asks waits locked i c d r e v n m p q = absurd (someone_waits d i.waiting_cids p v.2)
other_asks waits revoking i c d r e v n m p q = ground (arith, member-add c d i.waiting_cids)
other_asks waits retrying i c d r e v n m p q =
    ground (arith, member-add c d i.waiting_cids, bytes_eq_iff c i.retrying_cid)
other_asks asked free i c d r e v n m p q = ground arith
other_asks asked locked i c d r e v n m p q = ground arith
other_asks asked revoking i c d r e v n m p q = ground arith
other_asks asked retrying i c d r e v n m p q = ground (arith, bytes_eq_iff c i.retrying_cid)

-- The owner of a lock that is called back gives it back.
hand_over-Plays :
    (i : LockInfo) (l : List Bytes) (c : Bytes) (r : Reply)
    → i.waiting_cids ≡ l
    → c ≢ []
    → member c i.waiting_cids ≡ false
    → hand_over i l ≡ some r
    → Plays away r.info c × NotFor r.callback c
unfolding hand_over member
hand_over-Plays i [] c r e n m q = cc
hand_over-Plays i (x ∷ l) c r e n m q = ground (arith, bytes_eq_iff c x, ap (member c) e)

-- What the release of the owner is to another client.
abbrev pub Beside : Role → Reply → Bytes → Type 0
Beside waits r d = Kept waits r d ⊎ (Plays asked r.info d × (r.callback ≡ retry_call d))
Beside role r d = Kept role r d

hand_over-Beside :
    (role : Role) (i : LockInfo) (l : List Bytes) (d : Bytes) (r : Reply)
    → IsConsistent revoking i
    → i.stat ≡ revoking
    → i.waiting_cids ≡ l
    → i.owner ≢ d
    → d ≢ []
    → Plays role i d
    → hand_over i l ≡ some r
    → Beside role r d
unfolding hand_over member
hand_over-Beside role i [] d r c s e o n p q = cc
hand_over-Beside away i (x ∷ l) d r c s e o n p q =
    ground (arith, bytes_eq_iff x d, ap (member d) e)
hand_over-Beside waits i (x ∷ l) d r c s e o n p q =
    ground (arith, bytes_eq_iff x d, ap (member d) e)
hand_over-Beside kept i (x ∷ l) d r c s e o n p q = ground (arith, s, p)
hand_over-Beside revoked i (x ∷ l) d r c s e o n p q = ground (arith, o, p)
hand_over-Beside asked i (x ∷ l) d r c s e o n p q = ground (arith, s, p)

-- `release_info`, of the owner and for every other client.
pub release_info-Plays :
    (i : LockInfo) (c : Bytes) (r : Reply)
    → IsValid i
    → c ≢ []
    → release_info i c ≡ some r
    → Plays away r.info c
      × NotFor r.callback c
      × ((role : Role) (d : Bytes) → c ≢ d → d ≢ [] → Plays role i d → Beside role r d)
release_info-Plays i c r v n e =
    let (s, o, h) = release_info-some i c r e in
    let valid : IsConsistent revoking i = subst (λ t. IsConsistent t i) s v.consistent in
    let here =
      hand_over-Plays i i.waiting_cids c r refl n
        (subst (λ k. member k i.waiting_cids ≡ false) o valid.3) h in
    (
      here.0,
      here.1,
      λ role d a m p.
          hand_over-Beside role i i.waiting_cids d r valid s refl (subst (λ k. k ≢ d) (sym o) a) m p
            h,
    )

pub acquire_info-away :
    (i : LockInfo) (c : Bytes) (r : Reply)
    → IsValid i
    → Plays away i c
    → acquire_info i c ≡ some r
    → ((r.status ≡ ok) × Plays kept r.info c × NotFor r.callback c)
      ⊎ ((r.status ≡ retry) × Plays waits r.info c × NotFor r.callback c)
unfolding acquire_info
acquire_info-away i c r v = away_asks i.stat i c r refl v.consistent

pub acquire_info-asked :
    (i : LockInfo) (c : Bytes) (r : Reply)
    → Plays asked i c
    → acquire_info i c ≡ some r
    → ((r.status ≡ ok) × Plays kept r.info c × (r.callback ≡ no_call))
      ⊎ ((r.status ≡ ok) × Plays revoked r.info c × (r.callback ≡ revoke_call c))
unfolding acquire_info
acquire_info-asked i c r = asked_asks i.stat i c r refl

pub acquire_info-Apart :
    (i : LockInfo) (c : Bytes) (r : Reply)
    → IsValid i
    → acquire_info i c ≡ some r
    → (role : Role) (d : Bytes) → c ≢ d
    → d ≢ []
    → Plays role i d
    → Apart role r d
unfolding acquire_info
acquire_info-Apart i c r v e role d n m p = other_asks role i.stat i c d r refl v.consistent n m p e

-- What a client that calls acquire is to the server, and the checks that it passes.
pub acquire_info-MayAcquire :
    (role : Role) (i : LockInfo) (c : Bytes)
    → IsValid i
    → c ≢ []
    → Plays role i c
    → (role ≡ away) ⊎ (role ≡ asked)
    → MayAcquire i c
acquire_info-MayAcquire away i c v n p h = record { named = n; not_owner = p.0; not_waiting = p.1 }
acquire_info-MayAcquire asked i c v n p h =
    let k : IsConsistent retrying i = subst (λ t. IsConsistent t i) p.0 v.consistent in
    record {
      named = n;
      not_owner = λ e. n (sym e ∙ k.0);
      not_waiting = subst (λ x. member x i.waiting_cids ≡ false) p.1 k.2;
    }
acquire_info-MayAcquire _ i c v n p h = absurd (ground (arith, h))
