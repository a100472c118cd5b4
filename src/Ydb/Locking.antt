-- ===== src/Ydb/Locking.antt =====
-- ydb_server_2pl.h and ydb_server_2pl.cc: the server with two-phase locking. A handler runs on its
-- own; `none` is one that waits for a lock for ever, fails an assert, or leaves the matrix of who
-- waits for whom, which has room for 1024 transactions.
pub mod Graph
pub mod Deadlock
mod Tests
use cse_labs.Prelude.{
  ℕ, zero, suc, ◌+◌, ◌^◌, Bool, true, false, not, ◌&&◌, Option, none, some, List, [], ◌∷◌, ltb, leb,
  ◌==◌, if◌then◌else◌, Bytes, bytes_eq, nat_key, ◌>>=◌, check,
}
use cse_labs.StdMap.{Map, lookup, insert, erase, member, add}
use cse_labs.Fs.Disk.{inode_num}
use cse_labs.Lock.Server.{LockServer, granted, acquire, release}
use cse_labs.Ydb.{Status, ok, abort, transidinv, hash, ExtentClient}

-- `DEPENDENCY` and `TRANSBEGIN`, the locks of the matrix and of the counter.
abbrev pub dependency_lock : ℕ
dependency_lock = 1025

abbrev trans_begin_lock : ℕ
trans_begin_lock = 1027

-- `REMOVESTRING`, "to->Remove"
abbrev remove_string : Bytes
remove_string = 116 ∷ 111 ∷ 45 ∷ 62 ∷ 82 ∷ 101 ∷ 109 ∷ 111 ∷ 118 ∷ 101 ∷ []

abbrev pub Matrix : Type 0
Matrix = ℕ → ℕ → Bool

-- The loop of `dfs` over `n` transactions from `i` on; `go` is the recursive call.
unfoldable pub any_from : (ℕ → Option Bool) → Matrix → ℕ → ℕ → ℕ → Option Bool
any_from go dependency id1 i zero = some false
any_from go dependency id1 i (suc n) =
    let rest = any_from go dependency id1 (i + 1) n in
    let flag = go i in
    if dependency id1 i && not (i == id1)
    then flag >>= (λ found. if found then some true else rest)
    else rest

-- `dfs` among `n` transactions, nested at most `fuel` deep.
unfoldable pub dfs : ℕ → Matrix → ℕ → ℕ → ℕ → Option Bool
unfolding any_from
dfs zero dependency n id1 id2 = none
dfs (suc fuel) dependency n id1 id2 =
    let deeper = any_from (λ i. dfs fuel dependency n i id2) dependency id1 0 n in
    if id1 == id2 then some true else deeper

unfoldable pub add_edge : Matrix → ℕ → ℕ → Matrix
add_edge dependency id id2 i j = if i == id && j == id2 then true else dependency i j

-- The loop that clears the row and the column of a transaction, among `n`.
unfoldable pub clear_edges : Matrix → ℕ → ℕ → Matrix
clear_edges dependency id n i j =
    if (i == id && ltb j n) then false else if (j == id && ltb i n) then false else dependency i j

-- `Transaction`
pub record Transaction : Type 0 where
  pub locks : List ℕ
  pub log : Map ℕ Bytes

abbrev pub new_transaction : Transaction
new_transaction = record { locks = []; log = [] }

pub record Server (S : Type 0) : Type 0 where
  pub ec : S
  pub lc : LockServer
  pub dependency : Matrix
  pub trans_id : ℕ
  pub infos : Map ℕ Transaction
  pub lock_handlers : Map ℕ ℕ

pub record Reply (S : Type 0) : Type 0 where
  pub server : Server S
  pub status : Status
  pub value : Bytes

module _ {S : Type 0} (c : ExtentClient S) where
  unfoldable pub transaction_begin : Server S → Option (Server S × ℕ)
  transaction_begin s = do
    lc ← granted (acquire s.lc trans_begin_lock)
    check (ltb (s.trans_id + 1) (2 ^ 31)) (
        some (
          record s {
            lc = release lc trans_begin_lock;
            trans_id = s.trans_id + 1;
            infos = insert s.trans_id new_transaction s.infos;
          },
          s.trans_id,
        ))

  -- `checkCycle` under its lock: whether waiting for the lock would close a cycle; if not, the
  -- transaction is entered as waiting for the lock's owner.
  unfoldable pub check_owner : ℕ → Server S → ℕ → Option ℕ → Option (Bool × Matrix)
  check_owner fuel s id none = some (false, s.dependency)
  check_owner fuel s id (some id2) =
      check (ltb id2 s.trans_id && (leb s.trans_id inode_num && ltb id inode_num)) do
        found ← dfs fuel s.dependency s.trans_id id2 id
        some (if found then (true, s.dependency) else (false, add_edge s.dependency id id2))

  unfoldable pub check_cycle : ℕ → Server S → ℕ → ℕ → Option (Bool × Server S)
  unfolding check_owner
  check_cycle fuel s id ino = do
    lc ← granted (acquire s.lc dependency_lock)
    (cycle, dependency) ← check_owner fuel s id (lookup ino s.lock_handlers)
    some (cycle, record s { lc = release lc dependency_lock; dependency = dependency })

  -- The loop over the locks of a transaction that gives them back.
  unfoldable pub release_each : LockServer → Map ℕ ℕ → List ℕ → LockServer × Map ℕ ℕ
  release_each lc handlers [] = (lc, handlers)
  release_each lc handlers (ino ∷ locks) = release_each (release lc ino) (erase ino handlers) locks

  unfoldable pub release_locks : Server S → ℕ → Option (Server S)
  release_locks s id = elim (lookup id s.infos) [
    | none ↦ none
    | some t ↦ do
      lc ← granted (acquire s.lc dependency_lock)
      check (leb s.trans_id inode_num && ltb id inode_num) (
          let (lc', handlers) = release_each lc s.lock_handlers t.locks in
          some (record s {
            lc = release lc' dependency_lock;
            dependency = clear_edges s.dependency id s.trans_id;
            infos = erase id s.infos;
            lock_handlers = handlers;
          }))
  ]

  -- The loop of `transaction_commit`: every logged value is put or removed, and its lock given back.
  unfoldable pub commit_each : S → LockServer → Map ℕ ℕ → Map ℕ Bytes → S × LockServer × Map ℕ ℕ
  commit_each ec lc handlers [] = (ec, lc, handlers)
  commit_each ec lc handlers ((ino, v) ∷ log) =
      commit_each (if bytes_eq v remove_string then c.remove ec ino else c.put ec ino v)
        (release lc ino) (erase ino handlers) log

  unfoldable pub transaction_commit : Server S → ℕ → Option (Server S × Status)
  transaction_commit s id = elim (lookup id s.infos) [
    | none ↦ some (s, transidinv)
    | some t ↦ do
      lc ← granted (acquire s.lc dependency_lock)
      check (leb s.trans_id inode_num && ltb id inode_num) (
          let (ec, lc', handlers) = commit_each s.ec lc s.lock_handlers t.log in
          some (
            record s {
              ec = ec;
              lc = release lc' dependency_lock;
              dependency = clear_edges s.dependency id s.trans_id;
              infos = erase id s.infos;
              lock_handlers = handlers;
            },
            ok,
          ))
  ]

  unfoldable pub transaction_abort : Server S → ℕ → Option (Server S × Status)
  transaction_abort s id = elim (lookup id s.infos) [
    | none ↦ some (s, transidinv)
    | some t ↦ do s' ← release_locks s id; some (s', ok)
  ]

  -- The lock of an extent that the transaction does not have: waiting for it must not close a cycle,
  -- or the transaction is aborted. `use_lock` goes on when the lock is there.
  unfoldable pub take_lock :
      ℕ → Server S → ℕ → ℕ → Bytes → (Server S → Option (Reply S)) → Option (Reply S)
  take_lock fuel s id ino out use_lock = check_cycle fuel s id ino >>= λ (cycle, s1).
      if cycle
      then (release_locks s1 id
          >>= (λ s2. some (record { server = s2; status = abort; value = out })))
      else (granted (acquire s1.lc ino) >>= (λ lc.
          use_lock (record s1 { lc = lc; lock_handlers = insert ino id s1.lock_handlers })))

  abbrev logged : Transaction → ℕ → Bytes → Transaction
  logged t ino v = record { locks = add ino t.locks; log = insert ino v t.log }

  unfoldable pub get : ℕ → Server S → ℕ → Bytes → Bytes → Option (Reply S)
  get fuel s id key out = elim (lookup id s.infos) [
    | none ↦ some (record { server = s; status = transidinv; value = out })
    | some t ↦
        let ino = hash key in
        if member ino t.locks
        then elim (lookup ino t.log) [
          | none ↦ none
          | some v ↦ some (record { server = s; status = ok; value = v })
        ]
        else take_lock fuel s id ino out λ s'.
          let (v, ec) = c.get s'.ec ino in
          some (record {
            server = record s' { ec = ec; infos = insert id (logged t ino v) s'.infos };
            status = ok;
            value = v;
          })
  ]

  abbrev pub write_log : ℕ → Transaction → ℕ → Bytes → Server S → Option (Reply S)
  write_log id t ino value s = some (record {
    server = record s { infos = insert id (logged t ino value) s.infos };
    status = ok;
    value = value;
  })

  -- `set`; the value of the reply is what the source does not return.
  unfoldable pub set : ℕ → Server S → ℕ → Bytes → Bytes → Option (Reply S)
  set fuel s id key value = elim (lookup id s.infos) [
    | none ↦ some (record { server = s; status = transidinv; value = value })
    | some t ↦
        if member (hash key) t.locks
        then elim (lookup (hash key) t.log) [
          | none ↦ none
          | some v ↦ write_log id t (hash key) value s
        ]
        else take_lock fuel s id (hash key) value (write_log id t (hash key) value)
  ]

  -- `del` logs the string that stands for a removal.
  unfoldable pub del : ℕ → Server S → ℕ → Bytes → Option (Reply S)
  del fuel s id key = set fuel s id key remove_string
