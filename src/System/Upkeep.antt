-- ===== src/System/Upkeep.antt =====
-- The structures that the bridge passes to `Flush`, `CompactRange` and `GetApproximateSizes`
-- (lib/include/rocksdb/options.h and db.h), with the values of their default constructors.
use rock_db_swift.Prelude.{ℕ, Bool, true, false, Option, none, Bytes}
use rock_db_swift.Prelude.Int.{ℤ, negsuc}

-- `rocksdb::FlushOptions`
pub record FlushOptions : Type 0 where
  pub wait : Bool
  pub allow_write_stall : Bool

-- `FlushOptions()`
abbrev pub new_flush_options : FlushOptions
new_flush_options = record { wait = true; allow_write_stall = false }

-- `rocksdb::BottommostLevelCompaction`
pub data BottommostLevelCompaction : Type 0 where
  skip if_have_compaction_filter force force_optimized : BottommostLevelCompaction

-- `rocksdb::BlobGarbageCollectionPolicy`
pub data BlobGarbageCollectionPolicy : Type 0 where
  force disable use_default : BlobGarbageCollectionPolicy

-- `rocksdb::CompactRangeOptions`. The cutoff is a double, of which whole numbers are kept here; the
-- flag `canceled` is a pointer.
pub record CompactRangeOptions : Type 0 where
  pub exclusive_manual_compaction : Bool
  pub change_level : Bool
  pub target_level : ℤ
  pub target_path_id : ℕ
  pub bottommost_level_compaction : BottommostLevelCompaction
  pub allow_write_stall : Bool
  pub max_subcompactions : ℕ
  pub full_history_ts_low : Option Bytes
  pub canceled : Option ℕ
  pub blob_garbage_collection_policy : BlobGarbageCollectionPolicy
  pub blob_garbage_collection_age_cutoff : ℤ

-- `CompactRangeOptions()`
abbrev pub new_compact_range_options : CompactRangeOptions
new_compact_range_options = record {
  exclusive_manual_compaction = false;
  change_level = false;
  target_level = negsuc 0;
  target_path_id = 0;
  bottommost_level_compaction = if_have_compaction_filter;
  allow_write_stall = false;
  max_subcompactions = 0;
  full_history_ts_low = none;
  canceled = none;
  blob_garbage_collection_policy = use_default;
  blob_garbage_collection_age_cutoff = negsuc 0;
}

-- `rocksdb::Range`
pub record Range : Type 0 where
  pub start : Bytes
  pub limit : Bytes
