-- ===== src/Ydb/Occ/Commit.antt =====
-- What a transaction of the optimistic server sees and leaves.
use cse_labs.Prelude.{
  ℕ, ◌≡◌, refl, ◌⊎◌, inl, inr, Bool, true, false, none, some, arith, ◌==◌, if◌then◌else◌, nat_key,
}
use cse_labs.StdMap.{lookup, lookup-erase}
use cse_labs.StdMap.Sorted.{IsSorted}
use cse_labs.Lock.Server.{LockServer, granted, acquire, locked}
use cse_labs.Lock.Server.Threads.{locked-acquire, locked-release}
use cse_labs.Ydb.{Status, ok, abort, ExtentClient}
use cse_labs.Ydb.Occ.{writeset, Transaction, Server, validate, commit_locked, transaction_commit}
use cse_labs.Ydb.Occ.Validate.{
  IsFresh, validate-value, validate-IsFresh, IsFresh-validate, written, write_all-value, CanWrite,
}

module _ {S : Type 0} (c : ExtentClient S) where
  -- The outcome of a commit.
  abbrev pub Outcome : Server S → Transaction → Server S × Status → Type 0
  Outcome s t (s', st) =
      ((st ≡ ok)
        × IsFresh c s.ec t.read_log
        × ((j : ℕ) → c.value s'.ec j ≡ written c (c.value s.ec) t.write_log j))
      ⊎ ((st ≡ abort)
          × (¬ IsFresh c s.ec t.read_log)
          × ((j : ℕ) → c.value s'.ec j ≡ c.value s.ec j))

  -- What every commit leaves, whatever its outcome.
  pub record Ended (s : Server S) (id : ℕ) (s' : Server S) : Type 0 where
    pub unlocked : locked s'.lc writeset ≡ false
    pub gone : (j : ℕ) → lookup j s'.infos ≡ (if id == j then none else lookup j s.infos)
    pub counter : s'.trans_id ≡ s.trans_id

  commit_locked-Ended :
      (s : Server S) (lc : LockServer) (id : ℕ) (t : Transaction) (ec : S) (b : Bool)
      → Ended s id (commit_locked c (record s { lc = lc }) id t (ec, b)).0
  unfolding commit_locked
  commit_locked-Ended s lc id t ec true = record {
    unlocked = ground (arith, locked-release lc writeset writeset);
    gone = λ j. lookup-erase id j s.infos;
    counter = refl;
  }
  commit_locked-Ended s lc id t ec false = record {
    unlocked = ground (arith, locked-release lc writeset writeset);
    gone = λ j. lookup-erase id j s.infos;
    counter = refl;
  }

  commit_locked-Outcome :
      (s : Server S) (lc : LockServer) (id : ℕ) (t : Transaction) (ec : S) (b : Bool)
      → IsSorted t.write_log
      → (b ≡ true → CanWrite c ec t.write_log)
      → ((j : ℕ) → c.value ec j ≡ c.value s.ec j)
      → (b ≡ true → IsFresh c s.ec t.read_log)
      → (IsFresh c s.ec t.read_log → b ≡ true)
      → Outcome s t (commit_locked c (record s { lc = lc }) id t (ec, b))
  unfolding commit_locked
  commit_locked-Outcome s lc id t ec true w room same f g =
      inl (
        refl,
        f refl,
        λ j. ground (arith, write_all-value c ec t.write_log j w (room refl), same j),
      )
  commit_locked-Outcome s lc id t ec false w room same f g = inr (refl, (λ h. cc (g h)), same)

  -- A commit of a running transaction is all or nothing. It returns OK exactly when every value that
  -- the transaction read is still in its extent, and then every extent holds the last value that the
  -- transaction wrote to it, or what it held before; otherwise it returns ABORT and no extent has
  -- changed. On both paths the lock of the write sets is free again, the transaction is gone and
  -- every other one is as it was. The conditions: the lock is free, the write log is in order, and when
  -- the validation succeeds the extent server has room for each put of the log when its turn comes.
  pub transaction_commit_lem :
      (s : Server S) (id : ℕ) (t : Transaction)
      → lookup id s.infos ≡ some t
      → locked s.lc writeset ≡ false
      → IsSorted t.write_log
      → ((validate c s.ec t.read_log).1 ≡ true
          → CanWrite c (validate c s.ec t.read_log).0 t.write_log)
      → (r : Server S × Status) × (transaction_commit c s id ≡ some r)
        × Outcome s t r
        × Ended s id r.0
  unfolding transaction_commit
  transaction_commit_lem s id t found free w room =
      let (ec, b) = validate c s.ec t.read_log in
      let lc = (acquire s.lc writeset).0 in
      let got : granted (acquire s.lc writeset) ≡ some lc =
        ground (arith, (locked-acquire s.lc writeset 0).0) in
      (
        commit_locked c (record s { lc = lc }) id t (ec, b),
        ground (arith, found, got),
        commit_locked-Outcome s lc id t ec b w room (validate-value c s.ec t.read_log)
            (validate-IsFresh c s.ec t.read_log) (IsFresh-validate c s.ec t.read_log),
        commit_locked-Ended s lc id t ec b,
      )
