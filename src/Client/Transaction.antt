-- ===== src/Client/Transaction.antt =====
-- RocksDBTransaction.swift. A method that changes the object returns the new one.
pub mod Commits
pub mod Edits
pub mod Beginning
use rock_db_swift.Prelude.{
  String, Bool, true, false, not, ◌||◌, Option, none, some, Bytes, if◌then◌else◌,
}
use rock_db_swift.System.{System}
use rock_db_swift.Memory.{Ptr, M, pure, ◌>>=◌, ◌>>◌, with_handle}
use rock_db_swift.Bridge.Status.{StatusCode, CStatus}
use rock_db_swift.Bridge.AccessOptions.{rocksdb_read_options_destroy, rocksdb_write_options_destroy}
use rock_db_swift.Bridge.Database.{GetResult}
use rock_db_swift.Bridge.Transaction.{
  rocksdb_transaction_begin, rocksdb_transaction_destroy, rocksdb_transaction_put,
  rocksdb_transaction_get, rocksdb_transaction_get_for_update, rocksdb_transaction_delete,
  rocksdb_transaction_create_iterator, rocksdb_transaction_commit, rocksdb_transaction_rollback,
  rocksdb_transaction_set_savepoint, rocksdb_transaction_rollback_to_savepoint,
}
use rock_db_swift.Client.Error.{
  io_error, not_supported, invalid_argument, database_closed, transaction_conflict, Throws,
  returned, threw, has_code, message_or, free_message, check,
}
use rock_db_swift.Client.AccessOptions.{
  RocksDbReadOptions, RocksDbWriteOptions, create_read_handle, create_write_handle,
}
use rock_db_swift.Client.Database.{RocksDb, optional, finish_value, ◌>>?◌}
use rock_db_swift.Client.Iterator.{RocksDbIterator, handed_iterator}

pub record RocksDbTransaction : Type 0 where
  pub handle : Option Ptr
  pub committed : Bool

module _ {S : System} where
  -- `guard let h = handle else { throw … }`
  unfoldable pub on_open :
      {A : Type 0} → RocksDbTransaction → (Ptr → M S (Throws A)) → M S (Throws A)
  on_open t act = elim t.handle [
    | none ↦ pure (threw (invalid_argument "Transaction is closed"))
    | some h ↦ act h
  ]

  unfoldable pub get : RocksDbTransaction → Bytes → RocksDbReadOptions → M S (Throws (Option Bytes))
  unfolding on_open
  get t key options = on_open t λ h.
      with_handle (create_read_handle options) rocksdb_read_options_destroy
        λ opts. do result ← rocksdb_transaction_get h opts key; finish_value result

  unfoldable pub get_for_update :
      RocksDbTransaction → Bytes → RocksDbReadOptions → M S (Throws (Option Bytes))
  unfolding on_open
  get_for_update t key options = on_open t λ h.
      with_handle (create_read_handle options) rocksdb_read_options_destroy
        λ opts. do result ← rocksdb_transaction_get_for_update h opts key; finish_value result

  unfoldable pub put : RocksDbTransaction → Bytes → Bytes → M S (Throws (Unit {0}))
  unfolding on_open
  put t value key = on_open t λ h. do status ← rocksdb_transaction_put h key value; check status

  unfoldable pub put_string : RocksDbTransaction → String → String → M S (Throws (Unit {0}))
  put_string t value key = elim (S.utf8_data key) [
    | none ↦ pure (threw (invalid_argument "Invalid UTF-8 encoding"))
    | some key_data ↦ elim (S.utf8_data value) [
      | none ↦ pure (threw (invalid_argument "Invalid UTF-8 encoding"))
      | some value_data ↦ put t value_data key_data
    ]
  ]

  unfoldable pub delete : RocksDbTransaction → Bytes → M S (Throws (Unit {0}))
  unfolding on_open
  delete t key = on_open t λ h. do status ← rocksdb_transaction_delete h key; check status

  unfoldable pub delete_string : RocksDbTransaction → String → M S (Throws (Unit {0}))
  delete_string t key = elim (S.utf8_data key) [
    | none ↦ pure (threw (invalid_argument "Invalid key encoding"))
    | some key_data ↦ delete t key_data
  ]

  unfoldable pub get_string :
      RocksDbTransaction → String → RocksDbReadOptions → M S (Throws (Option String))
  get_string t key options = elim (S.utf8_data key) [
    | none ↦ pure (threw (invalid_argument "Invalid key encoding"))
    | some key_data ↦ get t key_data options >>? λ found. elim found [
      | none ↦ pure (returned none)
      | some bytes ↦ pure (returned (S.utf8_string bytes))
    ]
  ]

  unfoldable pub make_iterator :
      RocksDbTransaction → RocksDbReadOptions → M S (Throws RocksDbIterator)
  unfolding on_open
  make_iterator t options = on_open t λ h.
      with_handle (create_read_handle options) rocksdb_read_options_destroy λ opts. do
        p ← rocksdb_transaction_create_iterator h opts
        handed_iterator "Failed to create transaction iterator" p

  -- What the check of the status comes to: only a commit that succeeds marks the object.
  abbrev pub settle :
      RocksDbTransaction → Throws (Unit {0}) → M S (Throws (Unit {0}) × RocksDbTransaction)
  settle t (returned _) = pure (returned tt, record t { committed = true })
  settle t (threw e) = pure (threw e, t)

  -- The end of `commit`: a conflict has an error of its own.
  unfoldable pub finish_commit :
      RocksDbTransaction → CStatus → M S (Throws (Unit {0}) × RocksDbTransaction)
  finish_commit t status =
      if has_code status StatusCode.busy || has_code status StatusCode.try_again
      then (do
        message ← message_or "Transaction conflict" status.message
        free_message status
        pure (threw (transaction_conflict message), t))
      else check status >>= settle t

  unfoldable pub commit : RocksDbTransaction → M S (Throws (Unit {0}) × RocksDbTransaction)
  commit t = elim t.handle [
    | none ↦ pure (threw (invalid_argument "Transaction is closed"), t)
    | some h ↦ do status ← rocksdb_transaction_commit h; finish_commit t status
  ]

  unfoldable pub rollback : RocksDbTransaction → M S (Unit {0})
  rollback t = elim t.handle [ none ↦ pure tt | some h ↦ rocksdb_transaction_rollback h ]

  unfoldable pub set_savepoint : RocksDbTransaction → M S (Unit {0})
  set_savepoint t = elim t.handle [ none ↦ pure tt | some h ↦ rocksdb_transaction_set_savepoint h ]

  unfoldable pub rollback_to_savepoint : RocksDbTransaction → M S (Throws (Unit {0}))
  unfolding on_open
  rollback_to_savepoint t =
      on_open t λ h. do status ← rocksdb_transaction_rollback_to_savepoint h; check status

  -- `destroy`
  unfoldable pub destroy : RocksDbTransaction → M S RocksDbTransaction
  destroy t = elim t.handle [
    | none ↦ pure t
    | some h ↦ do rocksdb_transaction_destroy h; pure (record t { handle = none })
  ]

  -- `deinit`
  unfoldable pub release : RocksDbTransaction → M S RocksDbTransaction
  release t = do if t.committed then pure tt else rollback t; destroy t

  -- `guard let handle = … else { throw … }`, and the new object.
  unfoldable pub handed_transaction : Ptr → M S (Throws RocksDbTransaction)
  handed_transaction p = elim (optional p) [
    | none ↦ pure (threw (io_error "Failed to begin transaction"))
    | some p ↦ pure (returned (record { handle = some p; committed = false }))
  ]

  -- `RocksDB.beginTransaction`
  unfoldable pub begin_transaction : RocksDb → RocksDbWriteOptions → M S (Throws RocksDbTransaction)
  begin_transaction r options = elim r.handle [
    | none ↦ pure (threw database_closed)
    | some h ↦
        if not r.is_transactional
        then pure (threw (not_supported "Database not opened with transaction support"))
        else with_handle (create_write_handle options) rocksdb_write_options_destroy
            λ opts. do p ← rocksdb_transaction_begin h opts; handed_transaction p
  ]
