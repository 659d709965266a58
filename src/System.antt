-- ===== src/System.antt =====
-- What the program calls and does not implement: the RocksDB library (lib/include/rocksdb and the
-- static libraries), the C allocator and Foundation's UTF-8 conversions. They are one record of
-- operations on an unknown state, a parameter of every definition. The library's objects
-- (databases, iterators, transactions, snapshots) are known by number only; `none` is a null
-- pointer. The library's own option and status types are data.
mod Statuses
mod Access
mod Upkeep
mod Configuration
pub mod Compression
pub use Statuses.*
pub use Access.*
pub use Upkeep.*
pub use Configuration.*
use rock_db_swift.Prelude.{ℕ, String, Bool, Option, List, Bytes}
use rock_db_swift.Prelude.Int.{ℤ}

-- `rocksdb::Options`: the parts of `DBOptions` above, the other fields that the bridge assigns, and
-- `extra`, which holds the rest.
pub record Options (Extra : Type 0) : Type 0 where
  pub db : DbOptions
  pub resources : DbResources
  pub compression : ℕ
  pub write_buffer_size : ℕ
  pub max_write_buffer_number : ℤ
  pub max_background_flushes : ℤ
  pub level0_file_num_compaction_trigger : ℤ
  pub level0_slowdown_writes_trigger : ℤ
  pub level0_stop_writes_trigger : ℤ
  pub target_file_size_base : ℕ
  pub max_bytes_for_level_base : ℕ
  pub extra : Extra

pub record System : Type 1 where
  -- All that the library, the disk and the allocator remember.
  pub State : Type 0
  -- `rocksdb::WriteBatch`
  pub Batch : Type 0
  pub Extra : Type 0
  -- Whether `malloc` grants a block of the size.
  pub grants : State → ℕ → Bool
  -- Foundation: `String.data(using: .utf8)`, `String(data:encoding: .utf8)`, `String(cString:)`.
  pub utf8_data : String → Option Bytes
  pub utf8_string : Bytes → Option String
  pub c_string : Bytes → String
  -- Swift: `Int(_:)` of a text.
  pub parse_int : String → Option ℤ
  -- `Status::ToString`
  pub to_string : Status → Bytes
  -- `Options()`, and its presets.
  pub default_options : Options Extra
  pub optimize_for_point_lookup : ℕ → Options Extra → Options Extra
  pub optimize_level_style_compaction : ℕ → Options Extra → Options Extra
  -- `DB::Open`, `DB::OpenForReadOnly` and `OptimisticTransactionDB::Open`, with the pointer stored.
  pub open_db : Options Extra → String → State → (Status × Option ℕ) × State
  pub open_for_read_only : Options Extra → String → Bool → State → (Status × Option ℕ) × State
  pub open_txn_db : Options Extra → String → State → (Status × Option ℕ) × State
  pub get_base_db : ℕ → State → Option ℕ
  pub delete_db : ℕ → State → State
  pub delete_txn_db : ℕ → State → State
  -- Iterators of the database that have not been deleted: it must not be deleted before them.
  pub has_iterators : ℕ → State → Bool
  pub put : ℕ → WriteOptions → Bytes → Bytes → State → Status × State
  -- `Get`, with the string that it fills.
  pub get : ℕ → ReadOptions → Bytes → State → (Status × Bytes) × State
  pub delete : ℕ → WriteOptions → Bytes → State → Status × State
  pub key_may_exist : ℕ → ReadOptions → Bytes → State → Bool × State
  pub write : ℕ → WriteOptions → Batch → State → Status × State
  pub batch_empty : Batch
  pub batch_put : Bytes → Bytes → Batch → Batch
  pub batch_delete : Bytes → Batch → Batch
  pub batch_delete_range : Bytes → Bytes → Batch → Batch
  pub batch_clear : Batch → Batch
  pub batch_count : Batch → ℕ
  pub batch_data_size : Batch → ℕ
  pub new_iterator : ℕ → ReadOptions → State → Option ℕ × State
  pub delete_iterator : ℕ → State → State
  pub valid : ℕ → State → Bool
  pub seek_to_first : ℕ → State → State
  pub seek_to_last : ℕ → State → State
  pub seek : ℕ → Bytes → State → State
  pub seek_for_prev : ℕ → Bytes → State → State
  pub next : ℕ → State → State
  pub prev : ℕ → State → State
  pub key : ℕ → State → Bytes
  pub value : ℕ → State → Bytes
  pub iterator_status : ℕ → State → Status
  pub begin_transaction : ℕ → WriteOptions → State → Option ℕ × State
  pub delete_txn : ℕ → State → State
  pub txn_put : ℕ → Bytes → Bytes → State → Status × State
  pub txn_get : ℕ → ReadOptions → Bytes → State → (Status × Bytes) × State
  pub txn_get_for_update : ℕ → ReadOptions → Bytes → State → (Status × Bytes) × State
  pub txn_delete : ℕ → Bytes → State → Status × State
  pub txn_get_iterator : ℕ → ReadOptions → State → Option ℕ × State
  pub txn_commit : ℕ → State → Status × State
  pub txn_rollback : ℕ → State → Status × State
  pub txn_set_save_point : ℕ → State → State
  pub txn_rollback_to_save_point : ℕ → State → Status × State
  pub get_snapshot : ℕ → State → Option ℕ × State
  pub release_snapshot : ℕ → ℕ → State → State
  pub compact_range : ℕ → CompactRangeOptions → Option Bytes → Option Bytes → State → Status × State
  pub flush : ℕ → FlushOptions → State → Status × State
  pub get_property : ℕ → String → State → Option Bytes
  pub get_approximate_sizes : ℕ → List Range → State → List ℕ
