-- ===== src/Bridge/Options.antt =====
-- Option handles: the section "Database Options" of RocksDBBridge.cpp.
pub mod Fresh
use rock_db_swift.Prelude.{ℕ, true, none, ◌==◌, if◌then◌else◌}
use rock_db_swift.Prelude.Int.{ℤ, to_byte, to_bool}
use rock_db_swift.System.{System, Options, ReadOptions, WriteOptions}
use rock_db_swift.Memory.{
  Ptr, null, options, read_options, write_options, M, pure, ◌>>=◌, new, store, free, load_options,
  load_read_options, load_write_options, load_snapshot,
}

module _ {S : System} where
  -- An assignment to fields of `opts->options`.
  unfoldable pub modify_options : Ptr → (Options S.Extra → Options S.Extra) → M S (Unit {0})
  unfolding load_options store
  modify_options opts f = do o ← load_options opts; store opts (options (f o))

  unfoldable pub rocksdb_options_create : M S Ptr
  unfolding new
  rocksdb_options_create = new (options S.default_options)

  unfoldable pub rocksdb_options_destroy : Ptr → M S (Unit {0})
  unfolding free
  rocksdb_options_destroy opts = free opts

  unfoldable pub rocksdb_options_set_create_if_missing : Ptr → ℕ → M S (Unit {0})
  rocksdb_options_set_create_if_missing opts value =
      modify_options opts λ o. record o { db = record o.db { create_if_missing = to_bool value } }

  unfoldable pub rocksdb_options_set_error_if_exists : Ptr → ℕ → M S (Unit {0})
  rocksdb_options_set_error_if_exists opts value =
      modify_options opts λ o. record o { db = record o.db { error_if_exists = to_bool value } }

  unfoldable pub rocksdb_options_set_paranoid_checks : Ptr → ℕ → M S (Unit {0})
  rocksdb_options_set_paranoid_checks opts value =
      modify_options opts λ o. record o { db = record o.db { paranoid_checks = to_bool value } }

  unfoldable pub rocksdb_options_set_compression : Ptr → ℤ → M S (Unit {0})
  rocksdb_options_set_compression opts type =
      modify_options opts λ o. record o { compression = to_byte type }

  unfoldable pub rocksdb_options_set_write_buffer_size : Ptr → ℕ → M S (Unit {0})
  rocksdb_options_set_write_buffer_size opts size =
      modify_options opts λ o. record o { write_buffer_size = size }

  unfoldable pub rocksdb_options_set_max_write_buffer_number : Ptr → ℤ → M S (Unit {0})
  rocksdb_options_set_max_write_buffer_number opts value =
      modify_options opts λ o. record o { max_write_buffer_number = value }

  unfoldable pub rocksdb_options_set_max_open_files : Ptr → ℤ → M S (Unit {0})
  rocksdb_options_set_max_open_files opts value =
      modify_options opts
        λ o. record o { resources = record o.resources { max_open_files = value } }

  unfoldable pub rocksdb_options_set_max_background_compactions : Ptr → ℤ → M S (Unit {0})
  rocksdb_options_set_max_background_compactions opts value =
      modify_options opts
        λ o. record o { resources = record o.resources { max_background_compactions = value } }

  unfoldable pub rocksdb_options_set_max_background_flushes : Ptr → ℤ → M S (Unit {0})
  rocksdb_options_set_max_background_flushes opts value =
      modify_options opts λ o. record o { max_background_flushes = value }

  unfoldable pub rocksdb_options_set_level0_file_num_compaction_trigger : Ptr → ℤ → M S (Unit {0})
  rocksdb_options_set_level0_file_num_compaction_trigger opts value =
      modify_options opts λ o. record o { level0_file_num_compaction_trigger = value }

  unfoldable pub rocksdb_options_set_level0_slowdown_writes_trigger : Ptr → ℤ → M S (Unit {0})
  rocksdb_options_set_level0_slowdown_writes_trigger opts value =
      modify_options opts λ o. record o { level0_slowdown_writes_trigger = value }

  unfoldable pub rocksdb_options_set_level0_stop_writes_trigger : Ptr → ℤ → M S (Unit {0})
  rocksdb_options_set_level0_stop_writes_trigger opts value =
      modify_options opts λ o. record o { level0_stop_writes_trigger = value }

  unfoldable pub rocksdb_options_set_target_file_size_base : Ptr → ℕ → M S (Unit {0})
  rocksdb_options_set_target_file_size_base opts size =
      modify_options opts λ o. record o { target_file_size_base = size }

  unfoldable pub rocksdb_options_set_max_bytes_for_level_base : Ptr → ℕ → M S (Unit {0})
  rocksdb_options_set_max_bytes_for_level_base opts size =
      modify_options opts λ o. record o { max_bytes_for_level_base = size }

  unfoldable pub rocksdb_options_enable_statistics : Ptr → M S (Unit {0})
  rocksdb_options_enable_statistics opts =
      modify_options opts λ o. record o { resources = record o.resources { statistics = true } }

  unfoldable pub rocksdb_options_optimize_for_point_lookup : Ptr → ℕ → M S (Unit {0})
  rocksdb_options_optimize_for_point_lookup opts block_cache_size_mb =
      modify_options opts (S.optimize_for_point_lookup block_cache_size_mb)

  unfoldable pub rocksdb_options_optimize_level_style_compaction : Ptr → ℕ → M S (Unit {0})
  rocksdb_options_optimize_level_style_compaction opts memtable_memory_budget =
      modify_options opts (S.optimize_level_style_compaction memtable_memory_budget)
