-- ===== src/Client/Transaction/Beginning.antt =====
-- `beginTransaction` of RocksDB.swift on an open database.
use rock_db_swift.Prelude.{ℕ, String, ◌+◌, refl, true, false, none, some, Option, arith}
use rock_db_swift.System.{System}
use rock_db_swift.Memory.{Ptr, Cell, db, transaction, write_options, World, new}
use rock_db_swift.Memory.Effects.{
  IsSound, IsSound-later, IsSound-with_cell, At, At-old, At-new, not_null, with_cell, store-fresh,
}
use rock_db_swift.Memory.Creations.{Created, Created-with_handle, Created-last}
use rock_db_swift.Bridge.AccessOptions.{rocksdb_write_options_destroy}
use rock_db_swift.Bridge.Database.Live.{load_db-At, write_options-At}
use rock_db_swift.Bridge.Transaction.{rocksdb_transaction_begin}
use rock_db_swift.Client.Error.{returned}
use rock_db_swift.Client.AccessOptions.{RocksDbWriteOptions, create_write_handle}
use rock_db_swift.Client.AccessOptions.Handles.{library_write_options, create_write_handle_lem}
use rock_db_swift.Client.Database.Try.{optional-At}
use rock_db_swift.Client.Database.Closing.{open_handle}
use rock_db_swift.Client.Transaction.{begin_transaction, handed_transaction}

module _ {S : System} {w : World S} (sound : IsSound w) {p : Ptr} {d : ℕ} {base : Option ℕ}
    (at : At w p (db (open_handle true d base))) where
  -- On an open transactional database `beginTransaction` returns an uncommitted object whose
  -- handle is a new cell with the transaction that the library begins under the caller's options,
  -- and everything else that it allocated is freed.
  pub Created-begin_transaction :
      (path : String) (o : RocksDbWriteOptions)
      → let result = S.begin_transaction d (library_write_options S o) w.engine in
        Created w
          (λ q. returned (record { handle = some q; committed = false }))
          (transaction result.0)
          result.1
          (begin_transaction (record { handle = some p; path = path; is_transactional = true }) o w)
  unfolding begin_transaction rocksdb_write_options_destroy rocksdb_transaction_begin new
      handed_transaction
  Created-begin_transaction path o =
      let c : Cell S = write_options (library_write_options S o) in
      let v : World S = with_cell w c in
      let result = S.begin_transaction d (library_write_options S o) w.engine in
      Created-with_handle (create_write_handle o) rocksdb_write_options_destroy _ c _ _ result.1
        sound (create_write_handle_lem w sound o) (λ q. refl)
        (rw (not_null at) (
          rw (load_db-At (At-old sound c at)) (
            rw (write_options-At (At-new sound c)) (
              rw
                (store-fresh
                  (IsSound-later (IsSound-with_cell sound c) (w.next + 1) result.1 (omega arith))
                  (transaction none) (transaction result.0))
                (rw
                  (
                    optional-At (At-new (IsSound-with_cell sound c) (transaction result.0)),
                    handed_transaction,
                  )
                  (Created-last v _ (transaction result.0) result.1))))))
