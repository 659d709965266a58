-- ===== src/Client/Iterator/Making.antt =====
-- `makeIterator` of RocksDB.swift on an open database.
use rock_db_swift.Prelude.{ℕ, ◌+◌, ◌≡◌, refl, none, some, arith}
use rock_db_swift.System.{System}
use rock_db_swift.Memory.{Ptr, Cell, iterator, read_options, World, new}
use rock_db_swift.Memory.Effects.{
  IsSound, IsSound-later, IsSound-with_cell, At-new, with_cell, store-fresh,
}
use rock_db_swift.Memory.Creations.{Created, Created-with_handle, Created-last}
use rock_db_swift.Bridge.AccessOptions.{rocksdb_read_options_destroy}
use rock_db_swift.Bridge.Database.Live.{Live, live_db-Live, read_options-At}
use rock_db_swift.Bridge.Iterator.{rocksdb_iterator_create}
use rock_db_swift.Client.Error.{returned}
use rock_db_swift.Client.AccessOptions.{RocksDbReadOptions, create_read_handle}
use rock_db_swift.Client.AccessOptions.Handles.{library_read_options, create_read_handle_lem}
use rock_db_swift.Client.Database.{RocksDb}
use rock_db_swift.Client.Database.Try.{optional-At}
use rock_db_swift.Client.Database.Writes.{Live-old}
use rock_db_swift.Client.Iterator.{make_iterator, handed_iterator}

module _ {S : System} {w : World S} (sound : IsSound w) {p : Ptr} {d : ℕ} (live : Live w p d) where
  -- On an open database `makeIterator` returns an object whose handle is a new cell with the
  -- iterator that the library makes under the caller's options, and everything else that it
  -- allocated is freed.
  pub Created-make_iterator :
      (r : RocksDb) (o : RocksDbReadOptions)
      → r.handle ≡ some p
      → let result = S.new_iterator d (library_read_options S o) w.engine in
        Created w
          (λ q. returned (record { handle = some q }))
          (iterator result.0)
          result.1
          (make_iterator r o w)
  unfolding make_iterator rocksdb_read_options_destroy rocksdb_iterator_create new handed_iterator
  Created-make_iterator r o e =
      let c : Cell S = read_options (library_read_options S o) in
      let v : World S = with_cell w c in
      let result = S.new_iterator d (library_read_options S o) w.engine in
      rw e (
        Created-with_handle (create_read_handle o) rocksdb_read_options_destroy _ c _ _ result.1
          sound (create_read_handle_lem w sound o) (λ q. refl)
          (rw (live_db-Live (Live-old sound c live)) (
            rw (read_options-At (At-new sound c)) (
              rw
                (store-fresh
                  (IsSound-later (IsSound-with_cell sound c) (w.next + 1) result.1 (omega arith))
                  (iterator none) (iterator result.0))
                (rw
                  (
                    optional-At (At-new (IsSound-with_cell sound c) (iterator result.0)),
                    handed_iterator,
                  )
                  (Created-last v _ (iterator result.0) result.1))))))
