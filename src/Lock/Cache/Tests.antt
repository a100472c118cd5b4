-- ===== src/Lock/Cache/Tests.antt =====
-- The caching lock server on a lock that two clients want.
use cse_labs.Prelude.{◌≡◌, refl, some, [], ◌∷◌, Bytes, bytes_key, nat_key, bytes_eq}
use cse_labs.StdMap.{member, add, lookup, insert}
use cse_labs.Lock.Protocol.{ok, retry}
use cse_labs.Lock.Cache.{State, LockServerCache, empty, acquire, revoke_call, no_call}
use cse_labs.Lock.Cache.Agreement.{System, Reach, start, later, acquires, initial}

abbrev alice : Bytes
alice = 1 ∷ []

abbrev bob : Bytes
bob = 2 ∷ []

-- Alice owns lock 7 and Bob waits for it.
abbrev contended : LockServerCache
contended = record {
  nacquire = 0;
  lockmap =
      (
        7,
        record { owner = alice; retrying_cid = []; waiting_cids = bob ∷ []; stat = State.revoking },
      )
      ∷ [];
}

abbrev owned : LockServerCache
owned = record {
  nacquire = 0;
  lockmap =
      (7, record { owner = alice; retrying_cid = []; waiting_cids = []; stat = State.locked }) ∷ [];
}

alice_first :
    acquire (initial 0).server 7 alice
    ≡ some (record { server = owned; status = ok; callback = no_call })
unfolding acquire empty lookup insert
alice_first = refl

bob_second :
    acquire owned 7 bob
    ≡ some (record { server = contended; status = retry; callback = revoke_call alice })
unfolding acquire empty lookup insert member add bytes_eq
bob_second = refl

alice_owns : (s : System) × Reach 0 s × (s.server ≡ owned)
unfolding member
alice_owns = (_, later start (acquires 7 alice (λ e. cc) refl alice_first), refl)

bob_waits : (s : System) × Reach 0 s × (s.server ≡ contended)
unfolding member bytes_eq
bob_waits = (
  _,
  later (later start (acquires 7 alice (λ e. cc) refl alice_first))
      (acquires 7 bob (λ e. cc) refl bob_second),
  refl,
)
