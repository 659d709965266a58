-- ===== src/Client/AccessOptions.antt =====
-- The read and write options of RocksDBOptions.swift, and the handles made from them.
pub mod Handles
use rock_db_swift.Prelude.{Bool, true, false}
use rock_db_swift.Prelude.Int.{to_int}
use rock_db_swift.System.{System}
use rock_db_swift.Memory.{Ptr, M, pure, ◌>>=◌, ◌>>◌}
use rock_db_swift.Bridge.AccessOptions.{
  rocksdb_read_options_create, rocksdb_read_options_set_verify_checksums,
  rocksdb_read_options_set_fill_cache, rocksdb_read_options_set_prefix_same_as_start,
  rocksdb_write_options_create, rocksdb_write_options_set_sync, rocksdb_write_options_disable_wal,
}

pub record RocksDbReadOptions : Type 0 where
  pub verify_checksums : Bool
  pub fill_cache : Bool
  pub prefix_same_as_start : Bool

abbrev pub default_read_options : RocksDbReadOptions
default_read_options = record {
  verify_checksums = true;
  fill_cache = true;
  prefix_same_as_start = false;
}

pub record RocksDbWriteOptions : Type 0 where
  pub sync : Bool
  pub disable_wal : Bool

abbrev pub default_write_options : RocksDbWriteOptions
default_write_options = record { sync = false; disable_wal = false }

abbrev pub sync_write_options : RocksDbWriteOptions
sync_write_options = record default_write_options { sync = true }

module _ {S : System} where
  unfoldable pub create_read_handle : RocksDbReadOptions → M S Ptr
  unfolding rocksdb_read_options_create rocksdb_read_options_set_verify_checksums
      rocksdb_read_options_set_fill_cache rocksdb_read_options_set_prefix_same_as_start
  create_read_handle options = do
    opts ← rocksdb_read_options_create
    rocksdb_read_options_set_verify_checksums opts (to_int options.verify_checksums)
    rocksdb_read_options_set_fill_cache opts (to_int options.fill_cache)
    rocksdb_read_options_set_prefix_same_as_start opts (to_int options.prefix_same_as_start)
    pure opts

  unfoldable pub create_write_handle : RocksDbWriteOptions → M S Ptr
  unfolding rocksdb_write_options_create rocksdb_write_options_set_sync
      rocksdb_write_options_disable_wal
  create_write_handle options = do
    opts ← rocksdb_write_options_create
    rocksdb_write_options_set_sync opts (to_int options.sync)
    rocksdb_write_options_disable_wal opts (to_int options.disable_wal)
    pure opts
