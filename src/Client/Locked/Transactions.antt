-- ===== src/Client/Locked/Transactions.antt =====
-- RocksDBTransaction.swift: the ten members of the class that hold its lock, access by access.
pub mod Whole
pub mod Life
use rock_db_swift.Prelude.{◌≡◌, refl, Bool, true, Option, none, some, Bytes, ◌||◌, if◌then◌else◌}
use rock_db_swift.System.{System}
use rock_db_swift.Memory.{Ptr, M, pure, and_then}
use rock_db_swift.Bridge.Status.{StatusCode, CStatus}
use rock_db_swift.Bridge.AccessOptions.{rocksdb_read_options_destroy}
use rock_db_swift.Bridge.Transaction.{
  rocksdb_transaction_destroy, rocksdb_transaction_put, rocksdb_transaction_get,
  rocksdb_transaction_get_for_update, rocksdb_transaction_delete,
  rocksdb_transaction_create_iterator, rocksdb_transaction_commit, rocksdb_transaction_rollback,
  rocksdb_transaction_set_savepoint, rocksdb_transaction_rollback_to_savepoint,
}
use rock_db_swift.Client.Error.{
  RocksDbError, invalid_argument, transaction_conflict, Throws, returned, threw, has_code,
  message_or, free_message, check,
}
use rock_db_swift.Client.AccessOptions.{RocksDbReadOptions, create_read_handle}
use rock_db_swift.Client.Iterator.{RocksDbIterator, handed_iterator}
use rock_db_swift.Client.Transaction
use rock_db_swift.Client.Transaction.{RocksDbTransaction}
use rock_db_swift.Client.Locked.{
  Script, ends, sets, beside, does, ◌>>=◌, ◌>>◌, with_handle, guarded,
}
use rock_db_swift.Client.Locked.Ends.{checked, get_end}

pub data Call : Type 0 where
  destroying : Call
  getting : (key : Bytes) (o : RocksDbReadOptions) → Call
  getting_for_update : (key : Bytes) (o : RocksDbReadOptions) → Call
  putting : (value key : Bytes) → Call
  deleting : (key : Bytes) → Call
  making_iterator : (o : RocksDbReadOptions) → Call
  committing : Call
  rolling_back : Call
  setting_savepoint : Call
  rolling_back_to_savepoint : Call

-- Whether the member is `lock.withLock { … }`.
unfoldable pub takes_lock : Call → Bool
takes_lock destroying = true
takes_lock (getting key o) = true
takes_lock (getting_for_update key o) = true
takes_lock (putting value key) = true
takes_lock (deleting key) = true
takes_lock (making_iterator o) = true
takes_lock committing = true
takes_lock rolling_back = true
takes_lock setting_savepoint = true
takes_lock rolling_back_to_savepoint = true

pub takes_lock-always : (c : Call) → takes_lock c ≡ true
unfolding takes_lock
takes_lock-always destroying = refl
takes_lock-always (getting key o) = refl
takes_lock-always (getting_for_update key o) = refl
takes_lock-always (putting value key) = refl
takes_lock-always (deleting key) = refl
takes_lock-always (making_iterator o) = refl
takes_lock-always committing = refl
takes_lock-always rolling_back = refl
takes_lock-always setting_savepoint = refl
takes_lock-always rolling_back_to_savepoint = refl

abbrev pub Answer : Call → Type 0
Answer (getting key o) = Throws (Option Bytes)
Answer (getting_for_update key o) = Throws (Option Bytes)
Answer (putting value key) = Throws (Unit {0})
Answer (deleting key) = Throws (Unit {0})
Answer (making_iterator o) = Throws RocksDbIterator
Answer committing = Throws (Unit {0})
Answer rolling_back_to_savepoint = Throws (Unit {0})
Answer _ = Unit {0}

abbrev pub Body : System → Type 0 → Type 1
Body S A = Script S RocksDbTransaction A

abbrev pub handle : RocksDbTransaction → Option Ptr
handle t = t.handle

abbrev pub closed : RocksDbError
closed = invalid_argument "Transaction is closed"

module _ {S : System} where
  -- The whole methods.
  unfoldable pub method : (c : Call) → RocksDbTransaction → M S (Answer c × RocksDbTransaction)
  method destroying t = λ w. and_then (Transaction.destroy t w) λ q. pure (tt, q)
  method (getting key o) t = beside (Transaction.get t key o) t
  method (getting_for_update key o) t = beside (Transaction.get_for_update t key o) t
  method (putting value key) t = beside (Transaction.put t value key) t
  method (deleting key) t = beside (Transaction.delete t key) t
  method (making_iterator o) t = beside (Transaction.make_iterator t o) t
  method committing t = Transaction.commit t
  method rolling_back t = beside (Transaction.rollback t) t
  method setting_savepoint t = beside (Transaction.set_savepoint t) t
  method rolling_back_to_savepoint t = beside (Transaction.rollback_to_savepoint t) t

  -- `try RocksDBError.check(status)`, then `committed = true`
  unfoldable pub commit_end : CStatus → Body S (Throws (Unit {0}))
  commit_end status =
      if has_code status StatusCode.busy || has_code status StatusCode.try_again
      then (do
        message ← does (message_or "Transaction conflict" status.message)
        does (free_message status)
        ends (threw (transaction_conflict message)))
      else checked status λ _. do sets λ t. record t { committed = true }; ends (returned tt)

  unfoldable pub body : (c : Call) → Body S (Answer c)
  body destroying =
      guarded handle tt
        λ h. do does (rocksdb_transaction_destroy h); sets λ t. record t { handle = none }
  body (getting key o) = guarded handle (threw closed) λ h.
      with_handle (create_read_handle o) rocksdb_read_options_destroy
        λ opts. do result ← does (rocksdb_transaction_get h opts key); get_end result
  body (getting_for_update key o) = guarded handle (threw closed) λ h.
      with_handle (create_read_handle o) rocksdb_read_options_destroy
        λ opts. do result ← does (rocksdb_transaction_get_for_update h opts key); get_end result
  body (putting value key) =
      guarded handle (threw closed)
        λ h. do status ← does (rocksdb_transaction_put h key value); does (check status)
  body (deleting key) =
      guarded handle (threw closed)
        λ h. do status ← does (rocksdb_transaction_delete h key); does (check status)
  body (making_iterator o) = guarded handle (threw closed) λ h.
      with_handle (create_read_handle o) rocksdb_read_options_destroy λ opts. do
        p ← does (rocksdb_transaction_create_iterator h opts)
        does (handed_iterator "Failed to create transaction iterator" p)
  body committing =
      guarded handle (threw closed)
        λ h. do status ← does (rocksdb_transaction_commit h); commit_end status
  body rolling_back = guarded handle tt λ h. does (rocksdb_transaction_rollback h)
  body setting_savepoint = guarded handle tt λ h. does (rocksdb_transaction_set_savepoint h)
  body rolling_back_to_savepoint =
      guarded handle (threw closed)
        λ h. do status ← does (rocksdb_transaction_rollback_to_savepoint h); does (check status)
