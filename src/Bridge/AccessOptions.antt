-- ===== src/Bridge/AccessOptions.antt =====
-- Read and write options: the sections "Read Options" and "Write Options" of RocksDBBridge.cpp, and
-- the choice between given options and the library's defaults that its operations make.
pub mod Fresh
use rock_db_swift.Prelude.{ℕ, none, ◌==◌, if◌then◌else◌}
use rock_db_swift.Prelude.Int.{to_bool}
use rock_db_swift.System.{System, ReadOptions, WriteOptions, new_read_options, new_write_options}
use rock_db_swift.Memory.{
  Ptr, null, read_options, write_options, M, pure, ◌>>=◌, new, store, free, load_read_options,
  load_write_options, load_snapshot,
}

module _ {S : System} where
  unfoldable pub modify_read_options : Ptr → (ReadOptions → ReadOptions) → M S (Unit {0})
  unfolding load_read_options store
  modify_read_options opts f = do o ← load_read_options opts; store opts (read_options (f o))

  unfoldable pub modify_write_options : Ptr → (WriteOptions → WriteOptions) → M S (Unit {0})
  unfolding load_write_options store
  modify_write_options opts f = do o ← load_write_options opts; store opts (write_options (f o))

  unfoldable pub rocksdb_read_options_create : M S Ptr
  unfolding new
  rocksdb_read_options_create = new (read_options new_read_options)

  unfoldable pub rocksdb_read_options_destroy : Ptr → M S (Unit {0})
  unfolding free
  rocksdb_read_options_destroy opts = free opts

  unfoldable pub rocksdb_read_options_set_verify_checksums : Ptr → ℕ → M S (Unit {0})
  rocksdb_read_options_set_verify_checksums opts value =
      modify_read_options opts λ o. record o { verify_checksums = to_bool value }

  unfoldable pub rocksdb_read_options_set_fill_cache : Ptr → ℕ → M S (Unit {0})
  rocksdb_read_options_set_fill_cache opts value =
      modify_read_options opts λ o. record o { fill_cache = to_bool value }

  unfoldable pub rocksdb_read_options_set_prefix_same_as_start : Ptr → ℕ → M S (Unit {0})
  rocksdb_read_options_set_prefix_same_as_start opts value =
      modify_read_options opts
        λ o. record o { scans = record o.scans { prefix_same_as_start = to_bool value } }

  unfoldable pub rocksdb_read_options_set_snapshot : Ptr → Ptr → M S (Unit {0})
  unfolding load_snapshot
  rocksdb_read_options_set_snapshot opts snapshot = do
    s ← (if snapshot == null then pure none else load_snapshot snapshot)
    modify_read_options opts λ o. record o { snapshot = s }

  unfoldable pub rocksdb_write_options_create : M S Ptr
  unfolding new
  rocksdb_write_options_create = new (write_options new_write_options)

  unfoldable pub rocksdb_write_options_destroy : Ptr → M S (Unit {0})
  unfolding free
  rocksdb_write_options_destroy opts = free opts

  unfoldable pub rocksdb_write_options_set_sync : Ptr → ℕ → M S (Unit {0})
  rocksdb_write_options_set_sync opts value =
      modify_write_options opts λ o. record o { sync = to_bool value }

  unfoldable pub rocksdb_write_options_disable_wal : Ptr → ℕ → M S (Unit {0})
  rocksdb_write_options_disable_wal opts value =
      modify_write_options opts λ o. record o { disable_wal = to_bool value }

  -- `ReadOptions readOpts; if (opts) readOpts = opts->options;`
  unfoldable pub read_options_or_default : Ptr → M S ReadOptions
  unfolding load_read_options
  read_options_or_default opts =
      if opts == null then pure new_read_options else load_read_options opts

  unfoldable pub write_options_or_default : Ptr → M S WriteOptions
  unfolding load_write_options
  write_options_or_default opts =
      if opts == null then pure new_write_options else load_write_options opts
