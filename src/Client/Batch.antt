-- ===== src/Client/Batch.antt =====
-- RocksDBBatch.swift, and the two methods of RocksDB.swift that write a batch. The handle of a batch
-- is never nil.
pub mod Written
use rock_db_swift.Prelude.{ℕ, String, Bool, Option, none, some, Bytes, ◌==◌}
use rock_db_swift.System.{System}
use rock_db_swift.Memory.{Ptr, M, pure, ◌>>=◌, ◌>>◌, with_handle}
use rock_db_swift.Bridge.Status.{CStatus}
use rock_db_swift.Bridge.AccessOptions.{rocksdb_write_options_destroy}
use rock_db_swift.Bridge.Batch.{
  rocksdb_batch_create, rocksdb_batch_destroy, rocksdb_batch_put, rocksdb_batch_delete,
  rocksdb_batch_delete_range, rocksdb_batch_clear, rocksdb_batch_count, rocksdb_batch_data_size,
  rocksdb_write_batch,
}
use rock_db_swift.Client.Error.{database_closed, Throws, returned, threw, check}
use rock_db_swift.Client.AccessOptions.{RocksDbWriteOptions, create_write_handle}
use rock_db_swift.Client.Database.{RocksDb, ◌>>?◌}

pub record RocksDbBatch : Type 0 where
  pub handle : Ptr

module _ {S : System} where
  unfoldable pub new_batch : M S RocksDbBatch
  new_batch = do p ← rocksdb_batch_create; pure (record { handle = p })

  -- `deinit`
  unfoldable pub release : RocksDbBatch → M S (Unit {0})
  release b = rocksdb_batch_destroy b.handle

  unfoldable pub put : RocksDbBatch → Bytes → Bytes → M S (Unit {0})
  put b value key = rocksdb_batch_put b.handle key value

  unfoldable pub put_string : RocksDbBatch → String → String → M S (Unit {0})
  put_string b value key = elim (S.utf8_data key) [
    | none ↦ pure tt
    | some key_data ↦ elim (S.utf8_data value) [
      | none ↦ pure tt
      | some value_data ↦ put b value_data key_data
    ]
  ]

  unfoldable pub delete : RocksDbBatch → Bytes → M S (Unit {0})
  delete b key = rocksdb_batch_delete b.handle key

  unfoldable pub delete_string : RocksDbBatch → String → M S (Unit {0})
  delete_string b key = elim (S.utf8_data key) [
    | none ↦ pure tt
    | some key_data ↦ delete b key_data
  ]

  unfoldable pub delete_range : RocksDbBatch → Bytes → Bytes → M S (Unit {0})
  delete_range b start_key end_key = rocksdb_batch_delete_range b.handle start_key end_key

  unfoldable pub clear : RocksDbBatch → M S (Unit {0})
  clear b = rocksdb_batch_clear b.handle

  unfoldable pub count : RocksDbBatch → M S ℕ
  count b = rocksdb_batch_count b.handle

  unfoldable pub data_size : RocksDbBatch → M S ℕ
  data_size b = rocksdb_batch_data_size b.handle

  unfoldable pub is_empty : RocksDbBatch → M S Bool
  is_empty b = do n ← count b; pure (n == 0)

  unfoldable pub write_batch :
      RocksDb → RocksDbBatch → RocksDbWriteOptions → M S (Throws (Unit {0}))
  write_batch r b options = elim r.handle [
    | none ↦ pure (threw database_closed)
    | some h ↦
        with_handle (create_write_handle options) rocksdb_write_options_destroy
          λ opts. do status ← rocksdb_write_batch h opts b.handle; check status
  ]

  -- The closure gets the new batch, which is released on every exit.
  unfoldable pub with_batch :
      RocksDb
      → RocksDbWriteOptions
      → (RocksDbBatch → M S (Throws (Unit {0})))
      → M S (Throws (Unit {0}))
  with_batch r options operations = do
    b ← new_batch
    result ← (operations b >>? λ _. write_batch r b options)
    release b
    pure result
