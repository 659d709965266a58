-- ===== src/Bridge/Batch.antt =====
-- "Batch Operations" of RocksDBBridge.cpp.
use rock_db_swift.Prelude.{ℕ, none, some, Bytes, ◌==◌, if◌then◌else◌}
use rock_db_swift.System.{System}
use rock_db_swift.Memory.{Ptr, null, batch, M, pure, ◌>>=◌, call, new, store, free, load_batch}
use rock_db_swift.Bridge.Status.{CStatus, make_status, null_argument}
use rock_db_swift.Bridge.AccessOptions.{write_options_or_default}
use rock_db_swift.Bridge.Database.{live_db}

module _ {S : System} where
  unfoldable pub rocksdb_batch_create : M S Ptr
  rocksdb_batch_create = new (batch S.batch_empty)

  unfoldable pub rocksdb_batch_destroy : Ptr → M S (Unit {0})
  rocksdb_batch_destroy p = free p

  -- `if (batch) { batch->batch… }`
  unfoldable pub modify_batch : Ptr → (S.Batch → S.Batch) → M S (Unit {0})
  modify_batch p f = if p == null then pure tt else do b ← load_batch p; store p (batch (f b))

  unfoldable pub rocksdb_batch_put : Ptr → Bytes → Bytes → M S (Unit {0})
  unfolding modify_batch
  rocksdb_batch_put p key value = modify_batch p (S.batch_put key value)

  unfoldable pub rocksdb_batch_delete : Ptr → Bytes → M S (Unit {0})
  unfolding modify_batch
  rocksdb_batch_delete p key = modify_batch p (S.batch_delete key)

  unfoldable pub rocksdb_batch_delete_range : Ptr → Bytes → Bytes → M S (Unit {0})
  unfolding modify_batch
  rocksdb_batch_delete_range p start_key end_key =
      modify_batch p (S.batch_delete_range start_key end_key)

  unfoldable pub rocksdb_batch_clear : Ptr → M S (Unit {0})
  unfolding modify_batch
  rocksdb_batch_clear p = modify_batch p S.batch_clear

  unfoldable pub rocksdb_batch_count : Ptr → M S ℕ
  rocksdb_batch_count p = if p == null then pure 0 else do b ← load_batch p; pure (S.batch_count b)

  unfoldable pub rocksdb_batch_data_size : Ptr → M S ℕ
  rocksdb_batch_data_size p =
      if p == null then pure 0 else do b ← load_batch p; pure (S.batch_data_size b)

  -- The write itself, behind the guard against null handles.
  unfoldable pub write_live : ℕ → Ptr → Ptr → M S CStatus
  write_live d opts p = do
    o ← write_options_or_default opts
    b ← load_batch p
    s ← call S (S.write d o b)
    make_status s

  unfoldable pub rocksdb_write_batch : Ptr → Ptr → Ptr → M S CStatus
  unfolding write_live
  rocksdb_write_batch database opts p = do
    live ← live_db database
    elim live [
      | none ↦ null_argument "Database or batch is null"
      | some d ↦
          if p == null then null_argument "Database or batch is null" else write_live d opts p
    ]
