-- ===== src/Client/Batch/Written.antt =====
-- `withBatch` of RocksDB.swift: a closure fills a new batch, which is then written.
use rock_db_swift.Prelude.{ℕ, ◌≡◌, ◌≤◌, ◌+◌, some}
use rock_db_swift.System.{System}
use rock_db_swift.Memory.{Ptr, batch, write_options, World, ok, M, new, load_batch}
use rock_db_swift.Memory.Effects.{
  IsSound, IsSound-later, IsSound-with_cell, Effect, Effect-scope, Effect-later, Effect-pure, At,
  At-later, At-old, At-new, load-At, not_null, with_cell,
}
use rock_db_swift.Bridge.Database.Live.{Live, live_db-Live, write_options-At}
use rock_db_swift.Bridge.Batch.{
  rocksdb_batch_create, rocksdb_batch_destroy, rocksdb_write_batch, write_live,
}
use rock_db_swift.Bridge.Status.{make_status}
use rock_db_swift.Client.Error.{Throws, returned, threw}
use rock_db_swift.Client.Error.Reports.{reported}
use rock_db_swift.Client.AccessOptions.{RocksDbWriteOptions}
use rock_db_swift.Client.AccessOptions.Handles.{library_write_options}
use rock_db_swift.Client.Database.{RocksDb}
use rock_db_swift.Client.Database.Writes.{Live-old, Effect-write}
use rock_db_swift.Client.Batch.{RocksDbBatch, new_batch, release, write_batch, with_batch}

module _ {S : System} {w : World S} {p q b : Ptr} {d : ℕ} where
  rocksdb_write_batch-Live :
      {o : _} {c : S.Batch}
      → Live w p d
      → At w q (write_options o)
      → At w b (batch c)
      → let result = S.write d o c w.engine in
        rocksdb_write_batch p q b w ≡ make_status result.0 (record w { engine = result.1 })
  unfolding rocksdb_write_batch write_live load_batch
  rocksdb_write_batch-Live live at holds =
      rw (live_db-Live live, not_null holds) (rw (write_options-At at) (rw (load-At holds)))

module _ {S : System} {w : World S} (sound : IsSound w) {p : Ptr} {d : ℕ} (live : Live w p d) where
  -- On an open database, for a live batch, `writeBatch` is one `Write` of the library with the
  -- batch's content and the caller's options; the status is reported, and the heap, the batch
  -- included, is left as it was.
  pub Effect-write_batch :
      (r : RocksDb) (b : RocksDbBatch) (c : S.Batch) (o : RocksDbWriteOptions)
      → r.handle ≡ some p
      → At w b.handle (batch c)
      → let result = S.write d (library_write_options S o) c w.engine in
        Effect w (reported S result.1 result.0) result.1 (write_batch r b o w)
  unfolding write_batch
  Effect-write_batch r b c o e at = rw e (
      Effect-write sound o (λ opts. rocksdb_write_batch p opts b.handle) _ _
        (rocksdb_write_batch-Live (Live-old sound _ live) (At-new sound _) (At-old sound _ at)))

module _ {S : System} {w : World S} (sound : IsSound w) {p : Ptr} {d : ℕ} (live : Live w p d) where
  -- What `withBatch` comes to, by the closure's answer, the batch and the library's state that it
  -- leaves.
  abbrev pub batch_outcome :
      RocksDbWriteOptions → Throws (Unit {0}) → S.Batch → S.State → Throws (Unit {0}) × S.State
  batch_outcome o (threw e) c t = (threw e, t)
  batch_outcome o (returned _) c t =
      let result = S.write d (library_write_options S o) c t in
      (reported S result.1 result.0, result.1)

  -- On an open database, for a closure that answers, may call the library and allocate, but frees
  -- what it allocates, and leaves some content in its batch and every other cell as it was: if it
  -- returns, `batch` writes that content in one `Write` of the library, in the state that the
  -- closure left, and reports the status; if it throws, nothing is written and its error is passed
  -- on. Either way the batch is freed and the heap left as it was.
  pub Effect-with_batch :
      (r : RocksDb) (o : RocksDbWriteOptions) (operations : RocksDbBatch → M S (Throws (Unit {0})))
      (answer : Throws (Unit {0})) (c : S.Batch) (n : Ptr) (t : S.State)
      → r.handle ≡ some p
      → w.next + 1 ≤ n
      → operations (record { handle = w.next }) (with_cell w (batch S.batch_empty))
        ≡ ok answer (record (with_cell w (batch c)) { next = n; engine = t })
      → let done = batch_outcome o answer c t in
        Effect w done.0 done.1 (with_batch r o operations w)
  unfolding with_batch new_batch rocksdb_batch_create release rocksdb_batch_destroy new
  Effect-with_batch r o operations (threw e) c n t h room runs =
      rw runs (Effect-scope sound (batch c) (threw e) t _ (Effect-later n room (Effect-pure _ _)))
  Effect-with_batch r o operations (returned u) c n t h room runs =
      let good = IsSound-later (IsSound-with_cell sound (batch c)) n t room in
      let old = Live-old sound (batch c) live in
      let new_at = At-new sound (batch c) in
      let written =
        Effect-write_batch good
          (record { handle = old.handle; at = At-later old.at n t; live = old.live }) r
          (record { handle = w.next }) c o h (At-later new_at n t) in
      rw runs (Effect-scope sound (batch c) _ _ _ (Effect-later n room written))
