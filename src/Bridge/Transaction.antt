-- ===== src/Bridge/Transaction.antt =====
-- "Transaction Operations" of RocksDBBridge.cpp.
use rock_db_swift.Prelude.{ℕ, Option, none, some, Bytes, ◌==◌, if◌then◌else◌}
use rock_db_swift.System.{System, Status}
use rock_db_swift.Memory.{
  Ptr, null, DbHandle, iterator, transaction, M, pure, ◌>>=◌, ◌>>◌, call, effect, new, store, free,
  load_db, load_transaction,
}
use rock_db_swift.Bridge.Status.{CStatus, make_status, null_argument}
use rock_db_swift.Bridge.AccessOptions.{read_options_or_default, write_options_or_default}
use rock_db_swift.Bridge.Database.{GetResult, finish_get, refuse_get}

-- `db->txn_db` of a transactional handle.
abbrev transactional : DbHandle → Option ℕ
transactional h = if h.is_transactional then h.txn_db else none

module _ {S : System} where
  live_txn_db : Ptr → M S (Option ℕ)
  live_txn_db p = if p == null then pure none else do h ← load_db p; pure (transactional h)

  unfoldable pub rocksdb_transaction_begin : Ptr → Ptr → M S Ptr
  unfolding live_txn_db
  rocksdb_transaction_begin database opts = do
    live ← live_txn_db database
    elim live [
      | none ↦ pure null
      | some d ↦ do
        o ← write_options_or_default opts
        handle ← new (transaction none)
        t ← call S (S.begin_transaction d o)
        store handle (transaction t)
        pure handle
    ]

  -- `delete txn`, with the destructor of `RocksDBTransactionHandle`.
  unfoldable pub rocksdb_transaction_destroy : Ptr → M S (Unit {0})
  rocksdb_transaction_destroy p = if p == null then pure tt else do
    t ← load_transaction p
    elim t [ none ↦ pure tt | some t ↦ effect S (S.delete_txn t) ]
    free p

  -- `txn->txn`, or null where the guard `!txn || !txn->txn` finds one.
  unfoldable pub live_transaction : Ptr → M S (Option ℕ)
  live_transaction p = if p == null then pure none else load_transaction p

  -- A call on the transaction whose status is returned, behind the guard against null handles.
  on_transaction : Ptr → (ℕ → S.State → Status × S.State) → M S CStatus
  on_transaction p f = do
    live ← live_transaction p
    elim live [
      | none ↦ null_argument "Transaction is null"
      | some t ↦ do s ← call S (f t); make_status s
    ]

  unfoldable pub rocksdb_transaction_put : Ptr → Bytes → Bytes → M S CStatus
  unfolding on_transaction
  rocksdb_transaction_put p key value = on_transaction p λ t. S.txn_put t key value

  unfoldable pub rocksdb_transaction_get : Ptr → Ptr → Bytes → M S GetResult
  rocksdb_transaction_get p opts key = do
    live ← live_transaction p
    elim live [
      | none ↦ refuse_get "Transaction is null"
      | some t ↦ do
        o ← read_options_or_default opts
        (s, value) ← call S (S.txn_get t o key)
        finish_get s value
    ]

  unfoldable pub rocksdb_transaction_get_for_update : Ptr → Ptr → Bytes → M S GetResult
  rocksdb_transaction_get_for_update p opts key = do
    live ← live_transaction p
    elim live [
      | none ↦ refuse_get "Transaction is null"
      | some t ↦ do
        o ← read_options_or_default opts
        (s, value) ← call S (S.txn_get_for_update t o key)
        finish_get s value
    ]

  unfoldable pub rocksdb_transaction_delete : Ptr → Bytes → M S CStatus
  unfolding on_transaction
  rocksdb_transaction_delete p key = on_transaction p λ t. S.txn_delete t key

  unfoldable pub rocksdb_transaction_create_iterator : Ptr → Ptr → M S Ptr
  rocksdb_transaction_create_iterator p opts = do
    live ← live_transaction p
    elim live [
      | none ↦ pure null
      | some t ↦ do
        o ← read_options_or_default opts
        handle ← new (iterator none)
        i ← call S (S.txn_get_iterator t o)
        store handle (iterator i)
        pure handle
    ]

  unfoldable pub rocksdb_transaction_commit : Ptr → M S CStatus
  unfolding on_transaction
  rocksdb_transaction_commit p = on_transaction p S.txn_commit

  -- The status of the library's `Rollback` is dropped.
  unfoldable pub rocksdb_transaction_rollback : Ptr → M S (Unit {0})
  rocksdb_transaction_rollback p = do
    live ← live_transaction p
    elim live [ none ↦ pure tt | some t ↦ do call S (S.txn_rollback t); pure tt ]

  unfoldable pub rocksdb_transaction_set_savepoint : Ptr → M S (Unit {0})
  rocksdb_transaction_set_savepoint p = do
    live ← live_transaction p
    elim live [ none ↦ pure tt | some t ↦ effect S (S.txn_set_save_point t) ]

  unfoldable pub rocksdb_transaction_rollback_to_savepoint : Ptr → M S CStatus
  unfolding on_transaction
  rocksdb_transaction_rollback_to_savepoint p = on_transaction p S.txn_rollback_to_save_point
