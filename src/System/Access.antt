-- ===== src/System/Access.antt =====
-- `rocksdb::ReadOptions` and `rocksdb::WriteOptions` (lib/include/rocksdb/options.h), which the
-- bridge makes, fills and passes, with the values of their default constructors. A pointer to a
-- slice is a byte string or nothing, a duration is in microseconds, and a callback is a number.
use rock_db_swift.Prelude.{ℕ, ◌-◌, ◌^◌, Bool, true, false, Option, none, Bytes}

-- `rocksdb::Env::IOPriority`
pub data IoPriority : Type 0 where
  low mid high user total : IoPriority

-- `rocksdb::Env::IOActivity`
pub data IoActivity : Type 0 where
  flush compaction db_open get multi_get db_iterator verify_db_checksum : IoActivity
  verify_file_checksums get_entity multi_get_entity unknown : IoActivity

-- `rocksdb::ReadTier`
pub data ReadTier : Type 0 where
  read_all_tier block_cache_tier persisted_tier memtable_tier : ReadTier

-- The options of `rocksdb::ReadOptions` that are only relevant to iterators or scans.
pub record ScanOptions : Type 0 where
  pub readahead_size : ℕ
  pub max_skippable_internal_keys : ℕ
  pub iterate_lower_bound : Option Bytes
  pub iterate_upper_bound : Option Bytes
  pub tailing : Bool
  pub managed : Bool
  pub total_order_seek : Bool
  pub auto_prefix_mode : Bool
  pub prefix_same_as_start : Bool
  pub pin_data : Bool
  pub adaptive_readahead : Bool
  pub background_purge_on_iterator_cleanup : Bool
  pub table_filter : Option ℕ
  pub auto_readahead_size : Bool

-- The options relevant to point lookups as well as scans, those for scans, and the one for the
-- library's own use.
pub record ReadOptions : Type 0 where
  pub snapshot : Option ℕ
  pub timestamp : Option Bytes
  pub iter_start_ts : Option Bytes
  pub deadline : ℕ
  pub io_timeout : ℕ
  pub read_tier : ReadTier
  pub rate_limiter_priority : IoPriority
  pub value_size_soft_limit : ℕ
  pub merge_operand_count_threshold : Option ℕ
  pub verify_checksums : Bool
  pub fill_cache : Bool
  pub ignore_range_deletions : Bool
  pub async_io : Bool
  pub optimize_multiget_for_io : Bool
  pub scans : ScanOptions
  pub io_activity : IoActivity

abbrev pub new_scan_options : ScanOptions
new_scan_options = record {
  readahead_size = 0;
  max_skippable_internal_keys = 0;
  iterate_lower_bound = none;
  iterate_upper_bound = none;
  tailing = false;
  managed = false;
  total_order_seek = false;
  auto_prefix_mode = false;
  prefix_same_as_start = false;
  pin_data = false;
  adaptive_readahead = false;
  background_purge_on_iterator_cleanup = false;
  table_filter = none;
  auto_readahead_size = true;
}

-- `ReadOptions()`
abbrev pub new_read_options : ReadOptions
new_read_options = record {
  snapshot = none;
  timestamp = none;
  iter_start_ts = none;
  deadline = 0;
  io_timeout = 0;
  read_tier = read_all_tier;
  rate_limiter_priority = total;
  value_size_soft_limit = 2 ^ 64 - 1;
  merge_operand_count_threshold = none;
  verify_checksums = true;
  fill_cache = true;
  ignore_range_deletions = false;
  async_io = false;
  optimize_multiget_for_io = true;
  scans = new_scan_options;
  io_activity = unknown;
}

pub record WriteOptions : Type 0 where
  pub sync : Bool
  pub disable_wal : Bool
  pub ignore_missing_column_families : Bool
  pub no_slowdown : Bool
  pub low_pri : Bool
  pub memtable_insert_hint_per_batch : Bool
  pub rate_limiter_priority : IoPriority
  pub protection_bytes_per_key : ℕ
  pub io_activity : IoActivity

-- `WriteOptions()`
abbrev pub new_write_options : WriteOptions
new_write_options = record {
  sync = false;
  disable_wal = false;
  ignore_missing_column_families = false;
  no_slowdown = false;
  low_pri = false;
  memtable_insert_hint_per_batch = false;
  rate_limiter_priority = total;
  protection_bytes_per_key = 0;
  io_activity = unknown;
}
