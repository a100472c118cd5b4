-- ===== src/Lock/Cache.antt =====
-- lock_server_cache.h and lock_server_cache.cc: the server that lends locks to clients, which keep
-- them until it asks for them back. A handler runs under the server's mutex up to its unlock, and
-- sends at most one callback after that: it is modelled as one step that returns the callback. A
-- `VERIFY` that fails, and a null pointer that is read, are `none`.
pub mod Invariant
pub mod Agreement
pub mod Exclusion
mod Tests
use cse_labs.Prelude.{
  ℕ, Bool, true, false, not, ◌&&◌, Option, none, some, List, [], ◌∷◌, if◌then◌else◌, Bytes,
  bytes_eq, bytes_key, nat_key,
}
use cse_labs.StdMap.{Map, lookup, insert, member, add}
use cse_labs.Lock.Protocol.{Status, ok, retry}

pub data State : Type 0 where
  free locked revoking retrying : State

-- The key of a client is the bytes of its `host:port`.
pub record LockInfo : Type 0 where
  pub owner : Bytes
  pub retrying_cid : Bytes
  pub waiting_cids : List Bytes
  pub stat : State

abbrev pub new_lockinfo : LockInfo
new_lockinfo = record { owner = []; retrying_cid = []; waiting_cids = []; stat = free }

-- A call of a client by the server: `revoke` wants the lock back, `retry` says to ask again.
pub data Callback : Type 0 where
  no_call : Callback
  revoke_call retry_call : Bytes → Callback

pub record Reply : Type 0 where
  pub info : LockInfo
  pub status : Status
  pub callback : Callback

unfoldable pub empty {ℓ} : {A : Type ℓ} → List A → Bool
empty [] = true
empty (x ∷ xs) = false

-- `waiting_cids.insert(id)` behind the check that the client does not wait already.
unfoldable pub enqueue : LockInfo → Bytes → State → Callback → Option Reply
enqueue info id stat callback =
    if member id info.waiting_cids
    then none
    else some (record {
      info = record info { waiting_cids = add id info.waiting_cids; stat = stat };
      status = retry;
      callback = callback;
    })

-- The client that was told to retry takes the lock; if others wait, it is revoked at once.
unfoldable grant_retrying : LockInfo → Bytes → Option Reply
grant_retrying info id =
    if member id info.waiting_cids
    then none
    else if empty info.waiting_cids
    then some (record {
      info = record info { owner = id; retrying_cid = []; stat = locked };
      status = ok;
      callback = no_call;
    })
    else some (record {
      info = record info { owner = id; retrying_cid = []; stat = revoking };
      status = ok;
      callback = revoke_call id;
    })

-- The `switch` of `acquire`.
unfoldable pub acquire_in : State → LockInfo → Bytes → Option Reply
unfolding enqueue grant_retrying
acquire_in free info id =
    if empty info.owner
    then some (record {
      info = record info { owner = id; stat = locked };
      status = ok;
      callback = no_call;
    })
    else none
acquire_in locked info id =
    if not (empty info.owner) && not (bytes_eq info.owner id)
    then enqueue info id revoking (revoke_call info.owner)
    else none
acquire_in revoking info id = enqueue info id revoking no_call
acquire_in retrying info id =
    if bytes_eq id info.retrying_cid
    then grant_retrying info id
    else enqueue info id retrying no_call

unfoldable pub acquire_info : LockInfo → Bytes → Option Reply
unfolding acquire_in
acquire_info info id = acquire_in info.stat info id

-- The first waiting client is told to retry.
unfoldable pub hand_over : LockInfo → List Bytes → Option Reply
hand_over info [] = none
hand_over info (next_id ∷ rest) = some (record {
  info = record { owner = []; retrying_cid = next_id; waiting_cids = rest; stat = retrying };
  status = ok;
  callback = retry_call next_id;
})

unfoldable pub is_revoking : State → Bool
is_revoking revoking = true
is_revoking _ = false

unfoldable pub release_info : LockInfo → Bytes → Option Reply
unfolding hand_over is_revoking
release_info info id =
    if is_revoking info.stat && bytes_eq info.owner id
    then hand_over info info.waiting_cids
    else none

pub record LockServerCache : Type 0 where
  pub nacquire : ℕ
  pub lockmap : Map ℕ LockInfo

-- The state of the server after a handler, with what it returned and sent.
pub record Answer : Type 0 where
  pub server : LockServerCache
  pub status : Status
  pub callback : Callback

unfoldable pub store : LockServerCache → ℕ → Option Reply → Option Answer
store s lid none = none
store s lid (some r) = some (record {
  server = record s { lockmap = insert lid r.info s.lockmap };
  status = r.status;
  callback = r.callback;
})

-- The lock as `acquire` finds it: a lock that nobody asked for before is a new one.
unfoldable pub info_of : LockServerCache → ℕ → LockInfo
info_of s lid = elim (lookup lid s.lockmap) [ none ↦ new_lockinfo | some info ↦ info ]

unfoldable pub acquire : LockServerCache → ℕ → Bytes → Option Answer
unfolding store info_of acquire_info
acquire s lid id = store s lid (acquire_info (info_of s lid) id)

-- `lockmap[lid]` of a lock that was never asked for is a null pointer.
unfoldable pub release : LockServerCache → ℕ → Bytes → Option Answer
unfolding store release_info
release s lid id = elim (lookup lid s.lockmap) [
  | none ↦ none
  | some info ↦ store s lid (release_info info id)
]

-- `stat`
unfoldable pub stat : LockServerCache → Status × ℕ
stat s = (ok, s.nacquire)
