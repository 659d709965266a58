-- ===== src/Bridge/Header.antt =====
-- RocksDBBridge.h: the interface between the bridge and the Swift layer, a record of operations per
-- section of the header, one field per prototype.

pub mod Compression
pub mod Nulls
pub mod Implementation
pub mod Guards
pub mod Guarded
use rock_db_swift.Prelude.{ℕ, String, Option, List, Bytes}
use rock_db_swift.Prelude.Int.{ℤ}
use rock_db_swift.System.{System}
use rock_db_swift.Memory.{Ptr, M}
use rock_db_swift.Bridge.Status.{CStatus}
use rock_db_swift.Bridge.Database.{OpenResult, GetResult}

-- "Memory Management"
pub record MemoryManagement (S : System) : Type 0 where
  pub rocksdb_free_string : Ptr → M S (Unit {0})
  pub rocksdb_free_data : Ptr → M S (Unit {0})

-- "Options", the database options
pub record DatabaseOptions (S : System) : Type 0 where
  pub rocksdb_options_create : M S Ptr
  pub rocksdb_options_destroy : Ptr → M S (Unit {0})
  pub rocksdb_options_set_create_if_missing : Ptr → ℕ → M S (Unit {0})
  pub rocksdb_options_set_error_if_exists : Ptr → ℕ → M S (Unit {0})
  pub rocksdb_options_set_paranoid_checks : Ptr → ℕ → M S (Unit {0})
  pub rocksdb_options_set_compression : Ptr → ℤ → M S (Unit {0})
  pub rocksdb_options_set_write_buffer_size : Ptr → ℕ → M S (Unit {0})
  pub rocksdb_options_set_max_write_buffer_number : Ptr → ℤ → M S (Unit {0})
  pub rocksdb_options_set_max_open_files : Ptr → ℤ → M S (Unit {0})
  pub rocksdb_options_set_max_background_compactions : Ptr → ℤ → M S (Unit {0})
  pub rocksdb_options_set_max_background_flushes : Ptr → ℤ → M S (Unit {0})
  pub rocksdb_options_set_level0_file_num_compaction_trigger : Ptr → ℤ → M S (Unit {0})
  pub rocksdb_options_set_level0_slowdown_writes_trigger : Ptr → ℤ → M S (Unit {0})
  pub rocksdb_options_set_level0_stop_writes_trigger : Ptr → ℤ → M S (Unit {0})
  pub rocksdb_options_set_target_file_size_base : Ptr → ℕ → M S (Unit {0})
  pub rocksdb_options_set_max_bytes_for_level_base : Ptr → ℕ → M S (Unit {0})
  pub rocksdb_options_enable_statistics : Ptr → M S (Unit {0})
  pub rocksdb_options_optimize_for_point_lookup : Ptr → ℕ → M S (Unit {0})
  pub rocksdb_options_optimize_level_style_compaction : Ptr → ℕ → M S (Unit {0})

-- "Options", the read options
pub record ReadOptionHandles (S : System) : Type 0 where
  pub rocksdb_read_options_create : M S Ptr
  pub rocksdb_read_options_destroy : Ptr → M S (Unit {0})
  pub rocksdb_read_options_set_verify_checksums : Ptr → ℕ → M S (Unit {0})
  pub rocksdb_read_options_set_fill_cache : Ptr → ℕ → M S (Unit {0})
  pub rocksdb_read_options_set_snapshot : Ptr → Ptr → M S (Unit {0})
  pub rocksdb_read_options_set_prefix_same_as_start : Ptr → ℕ → M S (Unit {0})

-- "Options", the write options
pub record WriteOptionHandles (S : System) : Type 0 where
  pub rocksdb_write_options_create : M S Ptr
  pub rocksdb_write_options_destroy : Ptr → M S (Unit {0})
  pub rocksdb_write_options_set_sync : Ptr → ℕ → M S (Unit {0})
  pub rocksdb_write_options_disable_wal : Ptr → ℕ → M S (Unit {0})

-- "Database Operations"
pub record DatabaseOperations (S : System) : Type 0 where
  pub rocksdb_open : String → Ptr → M S OpenResult
  pub rocksdb_open_for_read_only : String → Ptr → ℕ → M S OpenResult
  pub rocksdb_open_transactional : String → Ptr → M S OpenResult
  pub rocksdb_close : Ptr → M S (Unit {0})
  pub rocksdb_is_transactional : Ptr → M S ℕ

-- "Key-Value Operations"
pub record KeyValueOperations (S : System) : Type 0 where
  pub rocksdb_put : Ptr → Ptr → Bytes → Bytes → M S CStatus
  pub rocksdb_get : Ptr → Ptr → Bytes → M S GetResult
  pub rocksdb_delete : Ptr → Ptr → Bytes → M S CStatus
  pub rocksdb_key_may_exist : Ptr → Ptr → Bytes → M S ℕ

-- "Batch Operations"
pub record BatchOperations (S : System) : Type 0 where
  pub rocksdb_batch_create : M S Ptr
  pub rocksdb_batch_destroy : Ptr → M S (Unit {0})
  pub rocksdb_batch_put : Ptr → Bytes → Bytes → M S (Unit {0})
  pub rocksdb_batch_delete : Ptr → Bytes → M S (Unit {0})
  pub rocksdb_batch_delete_range : Ptr → Bytes → Bytes → M S (Unit {0})
  pub rocksdb_batch_clear : Ptr → M S (Unit {0})
  pub rocksdb_batch_count : Ptr → M S ℕ
  pub rocksdb_batch_data_size : Ptr → M S ℕ
  pub rocksdb_write_batch : Ptr → Ptr → Ptr → M S CStatus

-- "Iterator Operations"
pub record IteratorOperations (S : System) : Type 0 where
  pub rocksdb_iterator_create : Ptr → Ptr → M S Ptr
  pub rocksdb_iterator_destroy : Ptr → M S (Unit {0})
  pub rocksdb_iterator_valid : Ptr → M S ℕ
  pub rocksdb_iterator_seek_to_first : Ptr → M S (Unit {0})
  pub rocksdb_iterator_seek_to_last : Ptr → M S (Unit {0})
  pub rocksdb_iterator_seek : Ptr → Bytes → M S (Unit {0})
  pub rocksdb_iterator_seek_for_prev : Ptr → Bytes → M S (Unit {0})
  pub rocksdb_iterator_next : Ptr → M S (Unit {0})
  pub rocksdb_iterator_prev : Ptr → M S (Unit {0})
  pub rocksdb_iterator_key : Ptr → M S (Option Bytes)
  pub rocksdb_iterator_value : Ptr → M S (Option Bytes)
  pub rocksdb_iterator_status : Ptr → M S CStatus

-- "Transaction Operations"
pub record TransactionOperations (S : System) : Type 0 where
  pub rocksdb_transaction_begin : Ptr → Ptr → M S Ptr
  pub rocksdb_transaction_destroy : Ptr → M S (Unit {0})
  pub rocksdb_transaction_put : Ptr → Bytes → Bytes → M S CStatus
  pub rocksdb_transaction_get : Ptr → Ptr → Bytes → M S GetResult
  pub rocksdb_transaction_get_for_update : Ptr → Ptr → Bytes → M S GetResult
  pub rocksdb_transaction_delete : Ptr → Bytes → M S CStatus
  pub rocksdb_transaction_create_iterator : Ptr → Ptr → M S Ptr
  pub rocksdb_transaction_commit : Ptr → M S CStatus
  pub rocksdb_transaction_rollback : Ptr → M S (Unit {0})
  pub rocksdb_transaction_set_savepoint : Ptr → M S (Unit {0})
  pub rocksdb_transaction_rollback_to_savepoint : Ptr → M S CStatus

-- "Snapshot Operations"
pub record SnapshotOperations (S : System) : Type 0 where
  pub rocksdb_create_snapshot : Ptr → M S Ptr
  pub rocksdb_release_snapshot : Ptr → Ptr → M S (Unit {0})

-- "Maintenance Operations"
pub record MaintenanceOperations (S : System) : Type 0 where
  pub rocksdb_compact_range : Ptr → Option Bytes → Option Bytes → M S CStatus
  pub rocksdb_flush : Ptr → ℕ → M S CStatus
  pub rocksdb_get_property : Ptr → String → M S Ptr
  pub rocksdb_get_approximate_sizes : Ptr → ℤ → List Bytes → List Bytes → M S (Option (List ℕ))

-- The whole header.
pub record Header (S : System) : Type 0 where
  pub memory : MemoryManagement S
  pub options : DatabaseOptions S
  pub read_options : ReadOptionHandles S
  pub write_options : WriteOptionHandles S
  pub databases : DatabaseOperations S
  pub key_value : KeyValueOperations S
  pub batches : BatchOperations S
  pub iterators : IteratorOperations S
  pub transactions : TransactionOperations S
  pub snapshots : SnapshotOperations S
  pub maintenance : MaintenanceOperations S
