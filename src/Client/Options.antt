-- ===== src/Client/Options.antt =====
-- RocksDBOptions.swift: the option structures, their presets, and the handles made from them.
pub mod Handles
pub mod Compression
use rock_db_swift.Prelude.{ℕ, ◌*◌, Bool, true, false, Option, none, some, if◌then◌else◌}
use rock_db_swift.Prelude.Int.{ℤ, pos, fits_int32, to_size, to_int}
use rock_db_swift.System.{System}
use rock_db_swift.Memory.{Ptr, M, pure, stop, trap, ◌>>=◌, ◌>>◌}
use rock_db_swift.Bridge.Options.{
  rocksdb_options_create, rocksdb_options_set_create_if_missing,
  rocksdb_options_set_error_if_exists, rocksdb_options_set_paranoid_checks,
  rocksdb_options_set_compression, rocksdb_options_set_write_buffer_size,
  rocksdb_options_set_max_write_buffer_number, rocksdb_options_set_max_open_files,
  rocksdb_options_set_max_background_compactions, rocksdb_options_set_max_background_flushes,
  rocksdb_options_set_level0_file_num_compaction_trigger,
  rocksdb_options_set_level0_slowdown_writes_trigger,
  rocksdb_options_set_level0_stop_writes_trigger, rocksdb_options_set_target_file_size_base,
  rocksdb_options_set_max_bytes_for_level_base, rocksdb_options_enable_statistics,
  rocksdb_options_optimize_for_point_lookup, rocksdb_options_optimize_level_style_compaction,
}

pub data RocksDbCompression : Type 0 where
  uncompressed snappy zlib bz2 lz4 lz4hc xpress zstd : RocksDbCompression

unfoldable pub raw_value : RocksDbCompression → ℤ
raw_value uncompressed = pos 0
raw_value snappy = pos 1
raw_value zlib = pos 2
raw_value bz2 = pos 3
raw_value lz4 = pos 4
raw_value lz4hc = pos 5
raw_value xpress = pos 6
raw_value zstd = pos 7

pub record RocksDbOptions : Type 0 where
  pub create_if_missing : Bool
  pub error_if_exists : Bool
  pub paranoid_checks : Bool
  pub compression : RocksDbCompression
  pub write_buffer_size : ℤ
  pub max_write_buffer_number : ℤ
  pub max_open_files : ℤ
  pub max_background_compactions : ℤ
  pub max_background_flushes : ℤ
  pub level0_file_num_compaction_trigger : ℤ
  pub level0_slowdown_writes_trigger : ℤ
  pub level0_stop_writes_trigger : ℤ
  pub target_file_size_base : ℕ
  pub max_bytes_for_level_base : ℕ
  pub enable_statistics : Bool
  pub optimize_for_point_lookup : Option ℕ
  pub optimize_level_style_compaction : Option ℕ

abbrev pub default_options : RocksDbOptions
default_options = record {
  create_if_missing = true;
  error_if_exists = false;
  paranoid_checks = false;
  compression = lz4;
  write_buffer_size = pos (64 * 1024 * 1024);
  max_write_buffer_number = pos 3;
  max_open_files = pos 1000;
  max_background_compactions = pos 2;
  max_background_flushes = pos 1;
  level0_file_num_compaction_trigger = pos 4;
  level0_slowdown_writes_trigger = pos 20;
  level0_stop_writes_trigger = pos 36;
  target_file_size_base = 64 * 1024 * 1024;
  max_bytes_for_level_base = 256 * 1024 * 1024;
  enable_statistics = false;
  optimize_for_point_lookup = none;
  optimize_level_style_compaction = none;
}

unfoldable pub point_lookup : ℕ → RocksDbOptions
point_lookup block_cache_size_mb = record default_options {
  optimize_for_point_lookup = some block_cache_size_mb;
}

abbrev pub bulk_load : RocksDbOptions
bulk_load = record default_options {
  write_buffer_size = pos (256 * 1024 * 1024);
  max_write_buffer_number = pos 6;
  level0_file_num_compaction_trigger = pos 8;
  level0_slowdown_writes_trigger = pos 16;
  level0_stop_writes_trigger = pos 24;
}

module _ {S : System} where
  -- `Int32(value)`, which traps out of range.
  unfoldable pub int32 : ℤ → M S ℤ
  int32 value = if fits_int32 value then pure value else stop trap

  -- The three `if`s at the end of `createHandle`.
  unfoldable pub enable_statistics_if : Bool → Ptr → M S (Unit {0})
  enable_statistics_if false opts = pure tt
  enable_statistics_if true opts = rocksdb_options_enable_statistics opts

  unfoldable pub optimize_for_point_lookup_if : Option ℕ → Ptr → M S (Unit {0})
  optimize_for_point_lookup_if none opts = pure tt
  optimize_for_point_lookup_if (some size) opts =
      rocksdb_options_optimize_for_point_lookup opts size

  unfoldable pub optimize_level_style_compaction_if : Option ℕ → Ptr → M S (Unit {0})
  optimize_level_style_compaction_if none opts = pure tt
  optimize_level_style_compaction_if (some budget) opts =
      rocksdb_options_optimize_level_style_compaction opts budget

  unfoldable pub create_handle : RocksDbOptions → M S Ptr
  unfolding rocksdb_options_set_create_if_missing rocksdb_options_set_error_if_exists
      rocksdb_options_set_paranoid_checks rocksdb_options_set_compression
      rocksdb_options_set_write_buffer_size rocksdb_options_set_max_write_buffer_number
      rocksdb_options_set_max_open_files rocksdb_options_set_max_background_compactions
      rocksdb_options_set_max_background_flushes
      rocksdb_options_set_level0_file_num_compaction_trigger
      rocksdb_options_set_level0_slowdown_writes_trigger
      rocksdb_options_set_level0_stop_writes_trigger rocksdb_options_set_target_file_size_base
      rocksdb_options_set_max_bytes_for_level_base raw_value
  create_handle options = do
    opts ← rocksdb_options_create
    rocksdb_options_set_create_if_missing opts (to_int options.create_if_missing)
    rocksdb_options_set_error_if_exists opts (to_int options.error_if_exists)
    rocksdb_options_set_paranoid_checks opts (to_int options.paranoid_checks)
    rocksdb_options_set_compression opts (raw_value options.compression)
    rocksdb_options_set_write_buffer_size opts (to_size options.write_buffer_size)
    rocksdb_options_set_max_write_buffer_number opts (← int32 options.max_write_buffer_number)
    rocksdb_options_set_max_open_files opts (← int32 options.max_open_files)
    rocksdb_options_set_max_background_compactions opts (← int32 options.max_background_compactions)
    rocksdb_options_set_max_background_flushes opts (← int32 options.max_background_flushes)
    rocksdb_options_set_level0_file_num_compaction_trigger opts
        (← int32 options.level0_file_num_compaction_trigger)
    rocksdb_options_set_level0_slowdown_writes_trigger opts
        (← int32 options.level0_slowdown_writes_trigger)
    rocksdb_options_set_level0_stop_writes_trigger opts (← int32 options.level0_stop_writes_trigger)
    rocksdb_options_set_target_file_size_base opts options.target_file_size_base
    rocksdb_options_set_max_bytes_for_level_base opts options.max_bytes_for_level_base
    enable_statistics_if options.enable_statistics opts
    optimize_for_point_lookup_if options.optimize_for_point_lookup opts
    optimize_level_style_compaction_if options.optimize_level_style_compaction opts
    pure opts
