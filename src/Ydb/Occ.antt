-- ===== src/Ydb/Occ.antt =====
-- ydb_server_occ.h and ydb_server_occ.cc: the server with optimistic transactions. A handler runs on
-- its own; `none` is a handler that waits for the lock of the write sets for ever, or the overflow of
-- the transaction counter, whose result C++ does not define.
pub mod Validate
pub mod Commit
mod Tests
use cse_labs.Prelude.{
  ℕ, zero, suc, ◌+◌, ◌^◌, Bool, true, false, Option, none, some, List, [], ◌∷◌, ltb, ◌==◌,
  if◌then◌else◌, Bytes, bytes_eq, nat_key, ◌>>=◌,
}
use cse_labs.StdMap.{Map, lookup, insert, erase}
use cse_labs.Lock.Server.{LockServer, granted, acquire, release}
use cse_labs.Ydb.{Status, ok, abort, transidinv, hash, ExtentClient}

-- `WRITESET`, the lock under which a transaction is validated and written.
abbrev pub writeset : ℕ
writeset = 1026

-- `Transaction_occ`
pub record Transaction : Type 0 where
  pub read_log : Map ℕ Bytes
  pub write_log : Map ℕ Bytes

abbrev pub new_transaction : Transaction
new_transaction = record { read_log = []; write_log = [] }

pub record Server (S : Type 0) : Type 0 where
  pub ec : S
  pub lc : LockServer
  pub trans_id : ℕ
  pub infos : Map ℕ Transaction

pub record Reply (S : Type 0) : Type 0 where
  pub server : Server S
  pub status : Status
  pub value : Bytes

module _ {S : Type 0} (c : ExtentClient S) where
  abbrev with_infos : Server S → Map ℕ Transaction → Server S
  with_infos s m = record s { infos = m }

  -- `transaction_begin`, with the number of the new transaction.
  unfoldable pub transaction_begin : Server S → Option (Server S × ℕ)
  transaction_begin s =
      if ltb (s.trans_id + 1) (2 ^ 31)
      then some (
        record s { trans_id = s.trans_id + 1; infos = insert s.trans_id new_transaction s.infos },
        s.trans_id,
      )
      else none

  -- The loop over the read log: whether every value is still the one that was read.
  unfoldable pub validate : S → Map ℕ Bytes → S × Bool
  validate s [] = (s, true)
  validate s ((ino, v) ∷ log) =
      let (disk_value, s') = c.get s ino in
      let rest = validate s' log in if bytes_eq disk_value v then rest else (s', false)

  -- The loop over the write log.
  unfoldable pub write_all : S → Map ℕ Bytes → S
  write_all s [] = s
  write_all s ((ino, v) ∷ log) = write_all (c.put s ino v) log

  -- The part of `transaction_commit` under the lock.
  unfoldable pub commit_locked : Server S → ℕ → Transaction → S × Bool → Server S × Status
  commit_locked s id t (ec, true) = (
    record s {
      ec = write_all ec t.write_log;
      lc = release s.lc writeset;
      infos = erase id s.infos;
    },
    ok,
  )
  commit_locked s id t (ec, false) =
      (record s { ec = ec; lc = release s.lc writeset; infos = erase id s.infos }, abort)

  unfoldable pub transaction_commit : Server S → ℕ → Option (Server S × Status)
  unfolding commit_locked
  transaction_commit s id = elim (lookup id s.infos) [
    | none ↦ some (s, transidinv)
    | some t ↦ granted (acquire s.lc writeset) >>= λ lc.
        some (commit_locked (record s { lc = lc }) id t (validate s.ec t.read_log))
  ]

  unfoldable pub transaction_abort : Server S → ℕ → Server S × Status
  transaction_abort s id = elim (lookup id s.infos) [
    | none ↦ (s, transidinv)
    | some t ↦ (with_infos s (erase id s.infos), ok)
  ]

  -- `get` of an extent that the transaction has not written: at its first read the value is logged,
  -- and a later read must find the same value.
  unfoldable pub get_read : Server S → ℕ → Transaction → ℕ → Option Bytes → Reply S
  get_read s id t ino none =
      let (v, ec) = c.get s.ec ino in
      record {
        server = record s {
          ec = ec;
          infos = insert id (record t { read_log = insert ino v t.read_log }) s.infos;
        };
        status = ok;
        value = v;
      }
  get_read s id t ino (some old) =
      let (v, ec) = c.get s.ec ino in
      if bytes_eq v old
      then record { server = record s { ec = ec }; status = ok; value = v }
      else record {
        server = record s { ec = ec; infos = erase id s.infos };
        status = abort;
        value = v;
      }

  -- `out` is the value that the caller's string holds before the call.
  unfoldable pub get : Server S → ℕ → Bytes → Bytes → Reply S
  unfolding get_read
  get s id key out = elim (lookup id s.infos) [
    | none ↦ record { server = s; status = transidinv; value = out }
    | some t ↦ elim (lookup (hash key) t.write_log) [
      | some v ↦ record { server = s; status = ok; value = v }
      | none ↦ get_read s id t (hash key) (lookup (hash key) t.read_log)
    ]
  ]

  unfoldable pub set : Server S → ℕ → Bytes → Bytes → Server S × Status
  set s id key value = elim (lookup id s.infos) [
    | none ↦ (s, transidinv)
    | some t ↦ (
      with_infos s
          (insert id (record t { write_log = insert (hash key) value t.write_log }) s.infos),
      ok,
    )
  ]

  -- `del` writes the empty value.
  unfoldable pub del : Server S → ℕ → Bytes → Server S × Status
  unfolding set
  del s id key = set s id key []
