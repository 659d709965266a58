-- ===== src/Client/Transact/Outcomes.antt =====
-- What `RocksDB.transaction` does with a new transaction once the closure has answered.
use rock_db_swift.Prelude.{ℕ, ◌≡◌, if◌then◌else◌, Bool, true, false, none, some, inl, inr, arith}
use rock_db_swift.System.{System}
use rock_db_swift.Memory.{Ptr, transaction, World, ok, M, pure, and_then, ◌>>◌, load_transaction}
use rock_db_swift.Memory.Effects.{IsSound, Effect, At, load-At, not_null, free-owned}
use rock_db_swift.Memory.Creations.{without}
use rock_db_swift.Bridge.Transaction.{rocksdb_transaction_rollback, rocksdb_transaction_destroy}
use rock_db_swift.Client.Error.{RocksDbError, Throws, returned, threw}
use rock_db_swift.Client.Transaction.{RocksDbTransaction, rollback, destroy, release}
use rock_db_swift.Client.Transaction.Commits.{
  live_transaction-At, committed_as, committed_as-cases, Effect-commit,
}
use rock_db_swift.Client.Transact.{abandon, attempt, conclude}

abbrev pub rolled_back : (S : System) → ℕ → S.State → S.State
rolled_back S i s = (S.txn_rollback i s).1

-- The object of a transaction.
abbrev pub object : Ptr → Bool → RocksDbTransaction
object p b = record { handle = some p; committed = b }

-- The closure's answer and the library's state, once it has answered: a commit if it returned, and
-- two rollbacks (in `catch`, and in `deinit`) if it or the commit failed.
module _ (S : System) (i : ℕ) {T : Type 0} where
  abbrev pub given_up : RocksDbError → S.State → Throws T × S.State
  given_up e s = (threw e, rolled_back S i (rolled_back S i s))

  abbrev pub ended : T → Throws (Unit {0}) → S.State → Throws T × S.State
  ended a (returned _) s = (returned a, s)
  ended a (threw e) s = given_up e s

  abbrev pub outcome : Throws T → S.State → Throws T × S.State
  outcome (threw e) s = given_up e s
  outcome (returned a) s =
      let done = S.txn_commit i s in
      ended a (committed_as S done.1 done.0 (object 0 false)).0 done.1

module _ {S : System} {w : World S} {p : Ptr} {i : ℕ} (at : At w p (transaction (some i))) where
  pub rollback-At :
      (b : Bool) → rollback (object p b) w ≡ ok tt (record w { engine = rolled_back S i w.engine })
  unfolding rollback rocksdb_transaction_rollback
  rollback-At b = rw (live_transaction-At at)

  pub destroy-At :
      (b : Bool)
      → destroy (object p b) w
        ≡ ok
            (record { handle = none; committed = b })
            (record (without w p) { engine = S.delete_txn i w.engine })
  unfolding destroy rocksdb_transaction_destroy load_transaction
  destroy-At b =
      rw (not_null at, load-At at)
        (rw (
          free-owned p (transaction (some i)) (record w { engine = S.delete_txn i w.engine })
            at.ne_null at.holds))

module _ {S : System} {w : World S} {p : Ptr} {i : ℕ} (at : At w p (transaction (some i))) where
  At-later :
      (n : Ptr) (s : S.State) → At (record w { next = n; engine = s }) p (transaction (some i))
  At-later n s = record { ne_null = at.ne_null; holds = at.holds }

  -- An object that is not marked as committed rolls back when it goes.
  pub release-At :
      (b : Bool)
      → release (object p b) w
        ≡ ok
            (record { handle = none; committed = b })
            (record (without w p) {
              engine = S.delete_txn i (if b then w.engine else rolled_back S i w.engine);
            })
  unfolding release
  release-At true = destroy-At at true
  release-At false =
      rw (rollback-At at false) (destroy-At (At-later w.next (rolled_back S i w.engine)) false)

module _ {S : System} {w : World S} {p : Ptr} {i : ℕ} (at : At w p (transaction (some i)))
    {T : Type 0} where
  -- Giving up, from `catch` to the end of the object.
  conclude-given_up :
      (e : RocksDbError) (n : Ptr) (s : S.State)
      → let v = record w { next = n; engine = s } in
        and_then (abandon {T = T} (object p false) e v) (λ x. release x.1 >> pure x.0)
        ≡ ok (threw e) (record (without w p) {
          next = n;
          engine = S.delete_txn i (rolled_back S i (rolled_back S i s));
        })
  unfolding abandon
  conclude-given_up e n s =
      rw (rollback-At (At-later at n s) false)
        (rw (release-At (At-later at n (rolled_back S i s)) false))

  -- For a live transaction and a closure that answers and leaves the transaction object as it was:
  -- if the closure returns, `transaction` commits and returns its value; if the closure or the
  -- commit fails, it throws that error and the library's transaction is rolled back (once in
  -- `catch`, once in `deinit`). In every case the library's transaction is deleted, its handle
  -- freed, and the rest of the heap left as the closure left it.
  pub Effect-conclude :
      {v : World S} (operation : RocksDbTransaction → M S (Throws T × RocksDbTransaction))
      (answer : Throws T)
      → IsSound w
      → operation (object p false) v ≡ ok (answer, object p false) w
      → let done = outcome S i answer w.engine in
        Effect (without w p) done.0 (S.delete_txn i done.1) (conclude operation (object p false) v)
  unfolding conclude attempt
  Effect-conclude operation (threw e) sound runs = record {
    after = w.next;
    grows = omega arith;
    runs = rw runs (conclude-given_up e w.next w.engine);
  }
  Effect-conclude operation (returned a) sound runs =
      let e = Effect-commit sound at false in
      let done = S.txn_commit i w.engine in
      elim (committed_as-cases S done.1 done.0) [
        | inl fine ↦ record {
          after = e.after;
          grows = e.grows;
          runs =
              rw (runs, e.runs, fine (object p false), outcome, fine (object 0 false))
                (rw (release-At (At-later at e.after done.1) true));
        }
        | inr (error, failed) ↦ record {
          after = e.after;
          grows = e.grows;
          runs =
              rw (runs, e.runs, failed (object p false), outcome, failed (object 0 false))
                (conclude-given_up error e.after done.1);
        }
      ]
