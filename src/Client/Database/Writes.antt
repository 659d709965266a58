-- ===== src/Client/Database/Writes.antt =====
-- `put` and `delete` of RocksDB.swift on an open database.
use rock_db_swift.Prelude.{ℕ, ◌+◌, ◌≡◌, refl, some, Bytes, arith}
use rock_db_swift.System.{System, Status}
use rock_db_swift.Memory.{Ptr, Cell, write_options, World, M, ◌>>=◌, with_handle}
use rock_db_swift.Memory.Effects.{
  IsSound, IsSound-later, IsSound-with_cell, Effect, Effect-with_handle, Effect-call, At-old,
  At-new, with_cell,
}
use rock_db_swift.Bridge.Status.{CStatus, make_status}
use rock_db_swift.Bridge.AccessOptions.{rocksdb_write_options_destroy}
use rock_db_swift.Bridge.Database.{rocksdb_put, rocksdb_delete}
use rock_db_swift.Bridge.Database.Live.{Live, rocksdb_put-Live, rocksdb_delete-Live}
use rock_db_swift.Client.Error.{check}
use rock_db_swift.Client.Error.Reports.{reported, check-make_status}
use rock_db_swift.Client.AccessOptions.{RocksDbWriteOptions, create_write_handle}
use rock_db_swift.Client.AccessOptions.Handles.{library_write_options, create_write_handle_lem}
use rock_db_swift.Client.Database.{RocksDb, put, delete}

module _ {S : System} {w : World S} (sound : IsSound w) where
  -- What is behind a pointer stays there when options are allocated.
  pub Live-old : (c : Cell S) {p : Ptr} {d : ℕ} → Live w p d → Live (with_cell w c) p d
  Live-old c l = record { handle = l.handle; at = At-old sound c l.at; live = l.live }

  -- A call of the library under write options, with its status checked.
  pub Effect-write :
      (o : RocksDbWriteOptions) (operation : Ptr → M S CStatus) (s : Status) (t : S.State)
      → (let v = with_cell w (write_options (library_write_options S o)) in
          operation w.next v ≡ make_status s (record v { engine = t }))
      → Effect w (reported S t s) t (
          with_handle
            (create_write_handle o)
            rocksdb_write_options_destroy
            (λ opts. operation opts >>= check)
            w)
  unfolding rocksdb_write_options_destroy
  Effect-write o operation s t runs =
      Effect-with_handle (create_write_handle o) rocksdb_write_options_destroy _
        (write_options (library_write_options S o)) _ t sound (create_write_handle_lem w sound o)
        (λ p. refl)
        (rw runs (
          Effect-call (
            check-make_status _
              (IsSound-later (IsSound-with_cell sound _) (w.next + 1) t (omega arith)) s)))

module _ {S : System} {w : World S} (sound : IsSound w) {p : Ptr} {d : ℕ} (live : Live w p d) where
  -- On an open database `put` is one `Put` of the library with the caller's options, key and
  -- value; OK returns and any other status throws its error. The heap is left as it was.
  pub Effect-put :
      (r : RocksDb) (value key : Bytes) (o : RocksDbWriteOptions)
      → r.handle ≡ some p
      → let result = S.put d (library_write_options S o) key value w.engine in
        Effect w (reported S result.1 result.0) result.1 (put r value key o w)
  unfolding put
  Effect-put r value key o e = rw e (
      Effect-write sound o (λ opts. rocksdb_put p opts key value) _ _
        (rocksdb_put-Live (Live-old sound _ live) key value (At-new sound _)))

  -- On an open database `delete` is one `Delete` of the library with the caller's options and key;
  -- OK returns and any other status throws its error. The heap is left as it was.
  pub Effect-delete :
      (r : RocksDb) (key : Bytes) (o : RocksDbWriteOptions)
      → r.handle ≡ some p
      → let result = S.delete d (library_write_options S o) key w.engine in
        Effect w (reported S result.1 result.0) result.1 (delete r key o w)
  unfolding delete
  Effect-delete r key o e = rw e (
      Effect-write sound o (λ opts. rocksdb_delete p opts key) _ _
        (rocksdb_delete-Live (Live-old sound _ live) key (At-new sound _)))
