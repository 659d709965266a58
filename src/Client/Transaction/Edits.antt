-- ===== src/Client/Transaction/Edits.antt =====
-- Reads and writes of RocksDBTransaction.swift on a live transaction.
use rock_db_swift.Prelude.{ℕ, ◌+◌, refl, Bool, some, Bytes, arith}
use rock_db_swift.System.{System}
use rock_db_swift.Memory.{Ptr, Cell, transaction, read_options, World}
use rock_db_swift.Memory.Effects.{
  IsSound, IsSound-later, IsSound-with_cell, Effect, Effect-call, Effect-with_handle, At, At-old,
  At-new, with_cell,
}
use rock_db_swift.Bridge.Transaction.{
  rocksdb_transaction_put, rocksdb_transaction_delete, rocksdb_transaction_get,
  rocksdb_transaction_get_for_update, rocksdb_transaction_rollback_to_savepoint,
}
use rock_db_swift.Bridge.AccessOptions.{rocksdb_read_options_destroy}
use rock_db_swift.Bridge.Database.Live.{read_options-At}
use rock_db_swift.Client.Error.Reports.{reported, check-make_status}
use rock_db_swift.Client.AccessOptions.{RocksDbReadOptions, create_read_handle}
use rock_db_swift.Client.AccessOptions.Handles.{library_read_options, create_read_handle_lem}
use rock_db_swift.Client.Database.Reads.{fetched, finish_get-finish_value}
use rock_db_swift.Client.Transaction.{put, delete, get, get_for_update, rollback_to_savepoint}
use rock_db_swift.Client.Transaction.Commits.{live_transaction-At}

module _ {S : System} {w : World S} (sound : IsSound w) {p : Ptr} {i : ℕ}
    (at : At w p (transaction (some i))) (b : Bool) where
  -- On a live transaction `put` is one `Put` of the library's transaction with the caller's key
  -- and value; OK returns and any other status throws its error. The heap is left as it was.
  pub Effect-txn_put :
      (value key : Bytes)
      → let result = S.txn_put i key value w.engine in
        Effect w
          (reported S result.1 result.0)
          result.1
          (put (record { handle = some p; committed = b }) value key w)
  unfolding put rocksdb_transaction_put
  Effect-txn_put value key =
      let result = S.txn_put i key value w.engine in
      rw (live_transaction-At at) (
        Effect-call (
          check-make_status (record w { engine = result.1 })
            (IsSound-later sound w.next result.1 (omega arith)) result.0))

  -- On a live transaction `delete` is one `Delete` of the library's transaction with the caller's
  -- key; OK returns and any other status throws its error. The heap is left as it was.
  pub Effect-txn_delete :
      (key : Bytes)
      → let result = S.txn_delete i key w.engine in
        Effect w
          (reported S result.1 result.0)
          result.1
          (delete (record { handle = some p; committed = b }) key w)
  unfolding delete rocksdb_transaction_delete
  Effect-txn_delete key =
      let result = S.txn_delete i key w.engine in
      rw (live_transaction-At at) (
        Effect-call (
          check-make_status (record w { engine = result.1 })
            (IsSound-later sound w.next result.1 (omega arith)) result.0))

  -- On a live transaction `rollbackToSavepoint` is one call of the library; OK returns and any
  -- other status throws its error. The heap is left as it was.
  pub Effect-rollback_to_savepoint :
      let result = S.txn_rollback_to_save_point i w.engine in
      Effect w
        (reported S result.1 result.0)
        result.1
        (rollback_to_savepoint (record { handle = some p; committed = b }) w)
  unfolding rollback_to_savepoint rocksdb_transaction_rollback_to_savepoint
  Effect-rollback_to_savepoint =
      let result = S.txn_rollback_to_save_point i w.engine in
      rw (live_transaction-At at) (
        Effect-call (
          check-make_status (record w { engine = result.1 })
            (IsSound-later sound w.next result.1 (omega arith)) result.0))

  -- On a live transaction `get` is one `Get` of the library's transaction with the caller's
  -- options: a found value is copied out (nil where the allocator refuses the copy), `NotFound` is
  -- nil, and any other status throws its error. The heap is left as it was.
  pub Effect-txn_get :
      (key : Bytes) (o : RocksDbReadOptions)
      → let result = S.txn_get i (library_read_options S o) key w.engine in
        Effect w
          (fetched S result.1 result.0.0 result.0.1)
          result.1
          (get (record { handle = some p; committed = b }) key o w)
  unfolding get rocksdb_read_options_destroy rocksdb_transaction_get
  Effect-txn_get key o =
      let c : Cell S = read_options (library_read_options S o) in
      let result = S.txn_get i (library_read_options S o) key w.engine in
      Effect-with_handle (create_read_handle o) rocksdb_read_options_destroy _ c _ result.1 sound
        (create_read_handle_lem w sound o) (λ q. refl)
        (rw (live_transaction-At (At-old sound c at)) (
          rw (read_options-At (At-new sound c)) (
            Effect-call (
              finish_get-finish_value (record (with_cell w c) { engine = result.1 })
                (IsSound-later (IsSound-with_cell sound c) (w.next + 1) result.1 (omega arith))
                result.0.0 result.0.1))))

  -- On a live transaction `getForUpdate` is one `GetForUpdate` of the library's transaction with
  -- the caller's options: a found value is copied out (nil where the allocator refuses the copy),
  -- `NotFound` is nil, and any other status throws its error. The heap is left as it was.
  pub Effect-get_for_update :
      (key : Bytes) (o : RocksDbReadOptions)
      → let result = S.txn_get_for_update i (library_read_options S o) key w.engine in
        Effect w
          (fetched S result.1 result.0.0 result.0.1)
          result.1
          (get_for_update (record { handle = some p; committed = b }) key o w)
  unfolding get_for_update rocksdb_read_options_destroy rocksdb_transaction_get_for_update
  Effect-get_for_update key o =
      let c : Cell S = read_options (library_read_options S o) in
      let result = S.txn_get_for_update i (library_read_options S o) key w.engine in
      Effect-with_handle (create_read_handle o) rocksdb_read_options_destroy _ c _ result.1 sound
        (create_read_handle_lem w sound o) (λ q. refl)
        (rw (live_transaction-At (At-old sound c at)) (
          rw (read_options-At (At-new sound c)) (
            Effect-call (
              finish_get-finish_value (record (with_cell w c) { engine = result.1 })
                (IsSound-later (IsSound-with_cell sound c) (w.next + 1) result.1 (omega arith))
                result.0.0 result.0.1))))
