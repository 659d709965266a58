-- ===== src/Client/Database/OtherOpenings.antt =====
-- `open` for reading only and `openWithTransactions` of RocksDB.swift.
use rock_db_swift.Prelude.{ℕ, ◌+◌, ◌≡◌, refl, Bool, true, false, some, none, String, arith}
use rock_db_swift.System.{System, Code}
use rock_db_swift.Memory.{Cell, db, options, DbHandle, World, new}
use rock_db_swift.Memory.Effects.{
  IsSound, IsSound-later, IsSound-with_cell, Effect, Effect-with_handle, store-fresh,
}
use rock_db_swift.Memory.Creations.{Created, Created-with_handle}
use rock_db_swift.Bridge.Status.{is_code}
use rock_db_swift.Bridge.Options.{rocksdb_options_destroy}
use rock_db_swift.Bridge.Database.{
  new_handle, rocksdb_open_for_read_only, rocksdb_open_transactional, base_db,
}
use rock_db_swift.Client.Error.{returned, threw}
use rock_db_swift.Client.Error.Reports.{meaning, text_or}
use rock_db_swift.Client.Options.{RocksDbOptions, create_handle}
use rock_db_swift.Client.Options.Handles.{fits, library_options}
use rock_db_swift.Client.Database.{open_read_only, open_with_transactions}
use rock_db_swift.Prelude.Int.{to_bool-to_int}
use rock_db_swift.Client.Database.Opening.{
  database, create_in_range, hand_out, take_back, load_options-old,
}

module _ {S : System} {w : World S} (sound : IsSound w) (path : String) (o : RocksDbOptions)
    (fit : fits o ≡ true) where
  -- For options in range, where the library opens the database for reading only, the object's
  -- handle is a new cell that holds it, and everything else that was allocated is freed.
  pub Created-open_read_only :
      (refuse_wal : Bool)
      → let result = S.open_for_read_only (library_options S o) path refuse_wal w.engine in
        is_code result.0.0 Code.ok ≡ true
        → Created w
            (λ p. returned (database path false p))
            (db (record new_handle { db = result.0.1 }))
            result.1
            (open_read_only path o refuse_wal w)
  unfolding open_read_only rocksdb_options_destroy rocksdb_open_for_read_only new
  Created-open_read_only refuse_wal fine =
      let c : Cell S = options (library_options S o) in
      let result = S.open_for_read_only (library_options S o) path refuse_wal w.engine in
      Created-with_handle (create_handle o) rocksdb_options_destroy _ c _ _ result.1 sound
        (create_in_range sound o fit) (λ p. refl)
        (rw
          (
            load_options-old sound o (db new_handle),
            to_bool-to_int,
            store-fresh
                (IsSound-later (IsSound-with_cell sound c) (w.next + 1) result.1 (omega arith))
                (db new_handle) (db (record new_handle { db = result.0.1 })),
          )
          (hand_out (IsSound-with_cell sound c) path "Failed to open database" false result.0.0
            (record new_handle { db = result.0.1 }) result.1 fine))

  -- For options in range, where the library opens the database and stores it,
  -- `openWithTransactions` returns a transactional object whose handle is a new cell that holds
  -- the library's transactional database and its base, and everything else that it allocated is
  -- freed.
  pub Created-open_with_transactions :
      (t : ℕ)
      → let result = S.open_txn_db (library_options S o) path w.engine in
        is_code result.0.0 Code.ok ≡ true
        → result.0.1 ≡ some t
        → Created w
            (λ p. returned (database path true p))
            (db
              (record { db = S.get_base_db t result.1; txn_db = some t; is_transactional = true }))
            result.1
            (open_with_transactions path o w)
  unfolding open_with_transactions rocksdb_options_destroy rocksdb_open_transactional new base_db
  Created-open_with_transactions t fine stored =
      let c : Cell S = options (library_options S o) in
      let result = S.open_txn_db (library_options S o) path w.engine in
      let begun : DbHandle = record new_handle { is_transactional = true } in
      let filled : DbHandle = record new_handle { txn_db = some t; is_transactional = true } in
      let full : DbHandle = record {
        db = S.get_base_db t result.1;
        txn_db = some t;
        is_transactional = true;
      } in
      let later = IsSound-later (IsSound-with_cell sound c) (w.next + 1) result.1 (omega arith) in
      Created-with_handle (create_handle o) rocksdb_options_destroy _ c _ _ result.1 sound
        (create_in_range sound o fit) (λ p. refl)
        (rw
          (
            load_options-old sound o (db begun),
            stored,
            store-fresh later (db begun) (db filled),
            fine,
            store-fresh later (db filled) (db full),
          )
          (hand_out (IsSound-with_cell sound c) path "Failed to open transactional database" true
            result.0.0 full result.1 fine))

  -- Where the library reports an error and stores no database, the error that the status stands
  -- for is thrown, and everything that was allocated is freed.
  pub Effect-open_read_only :
      (refuse_wal : Bool)
      → let result = S.open_for_read_only (library_options S o) path refuse_wal w.engine in
        is_code result.0.0 Code.ok ≡ false
        → result.0.1 ≡ none
        → Effect w
            (threw (
              meaning result.0.0.code
                (text_or S "Unknown error" result.1 (S.to_string result.0.0))))
            result.1
            (open_read_only path o refuse_wal w)
  unfolding open_read_only rocksdb_options_destroy rocksdb_open_for_read_only new
  Effect-open_read_only refuse_wal failed empty =
      let c : Cell S = options (library_options S o) in
      let result = S.open_for_read_only (library_options S o) path refuse_wal w.engine in
      Effect-with_handle (create_handle o) rocksdb_options_destroy _ c _ result.1 sound
        (create_in_range sound o fit) (λ p. refl)
        (rw
          (
            load_options-old sound o (db new_handle),
            to_bool-to_int,
            empty,
            store-fresh
                (IsSound-later (IsSound-with_cell sound c) (w.next + 1) result.1 (omega arith))
                (db new_handle) (db new_handle),
          )
          (take_back (IsSound-with_cell sound c) path "Failed to open database" false result.0.0
            result.1 failed))

  -- For options in range, where the library reports an error and stores no database,
  -- `openWithTransactions` throws the error that the status stands for, and everything that it
  -- allocated is freed.
  pub Effect-open_with_transactions :
      let result = S.open_txn_db (library_options S o) path w.engine in
      is_code result.0.0 Code.ok ≡ false
      → result.0.1 ≡ none
      → Effect w
          (threw
            (meaning result.0.0.code (text_or S "Unknown error" result.1 (S.to_string result.0.0))))
          result.1
          (open_with_transactions path o w)
  unfolding open_with_transactions rocksdb_options_destroy rocksdb_open_transactional new
  Effect-open_with_transactions failed empty =
      let c : Cell S = options (library_options S o) in
      let result = S.open_txn_db (library_options S o) path w.engine in
      let begun : DbHandle = record new_handle { is_transactional = true } in
      let later = IsSound-later (IsSound-with_cell sound c) (w.next + 1) result.1 (omega arith) in
      Effect-with_handle (create_handle o) rocksdb_options_destroy _ c _ result.1 sound
        (create_in_range sound o fit) (λ p. refl)
        (rw
          (
            load_options-old sound o (db begun),
            empty,
            store-fresh later (db begun) (db begun),
            failed,
          )
          (take_back (IsSound-with_cell sound c) path "Failed to open transactional database" true
            result.0.0 result.1 failed))
