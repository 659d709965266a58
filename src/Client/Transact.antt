-- ===== src/Client/Transact.antt =====
-- `transaction` of RocksDB.swift: a closure runs in a new transaction.
pub mod Outcomes
pub mod Whole
pub mod Life
use rock_db_swift.Prelude.{true, false, not, if◌then◌else◌}
use rock_db_swift.System.{System}
use rock_db_swift.Memory.{M, pure, ◌>>=◌, ◌>>◌}
use rock_db_swift.Client.Error.{RocksDbError, not_supported, Throws, returned, threw}
use rock_db_swift.Client.AccessOptions.{RocksDbWriteOptions}
use rock_db_swift.Client.Database.{RocksDb, ◌>>?◌}
use rock_db_swift.Client.Transaction.{
  RocksDbTransaction, begin_transaction, commit, rollback, release,
}

module _ {S : System} {T : Type 0} where
  -- `catch { txn.rollback(); throw error }`
  unfoldable pub abandon : RocksDbTransaction → RocksDbError → M S (Throws T × RocksDbTransaction)
  abandon t error = do rollback t; pure (threw error, t)

  -- The `do` block. The closure may change the transaction object.
  unfoldable pub attempt :
      (RocksDbTransaction → M S (Throws T × RocksDbTransaction))
      → RocksDbTransaction
      → M S (Throws T × RocksDbTransaction)
  attempt operation t = do
    (result, t) ← operation t
    elim result [
      | threw e ↦ abandon t e
      | returned a ↦ do
        (done, t) ← commit t
        elim done [ threw e ↦ abandon t e | returned _ ↦ pure (returned a, t) ]
    ]

  -- The last reference to the transaction goes when the function returns, unless the closure has
  -- stored one: `release` is the object's `deinit`.
  unfoldable pub conclude :
      (RocksDbTransaction → M S (Throws T × RocksDbTransaction))
      → RocksDbTransaction
      → M S (Throws T)
  conclude operation t = do (result, t) ← attempt operation t; release t; pure result

  unfoldable pub transaction :
      RocksDb
      → RocksDbWriteOptions
      → (RocksDbTransaction → M S (Throws T × RocksDbTransaction))
      → M S (Throws T)
  transaction r options operation =
      if not r.is_transactional
      then pure (threw (not_supported "Database not opened with transaction support"))
      else begin_transaction r options >>? conclude operation
