-- ===== src/Bridge/Header/Implementation.antt =====
-- What RocksDBBridge.cpp gives for RocksDBBridge.h.
use rock_db_swift.Bridge.Status
use rock_db_swift.Bridge.Options
use rock_db_swift.Bridge.AccessOptions
use rock_db_swift.Bridge.Database
use rock_db_swift.Bridge.Batch
use rock_db_swift.Bridge.Iterator
use rock_db_swift.Bridge.Transaction
use rock_db_swift.Bridge.Maintenance
use rock_db_swift.System.{System}
use rock_db_swift.Bridge.Header.{Header}

module _ (S : System) where
  -- The implementation.
  unfoldable pub bridge : Header S
  bridge = record {
    memory = record {
      rocksdb_free_string = Status.rocksdb_free_string;
      rocksdb_free_data = Status.rocksdb_free_data;
    };
    options = record {
      rocksdb_options_create = Options.rocksdb_options_create;
      rocksdb_options_destroy = Options.rocksdb_options_destroy;
      rocksdb_options_set_create_if_missing = Options.rocksdb_options_set_create_if_missing;
      rocksdb_options_set_error_if_exists = Options.rocksdb_options_set_error_if_exists;
      rocksdb_options_set_paranoid_checks = Options.rocksdb_options_set_paranoid_checks;
      rocksdb_options_set_compression = Options.rocksdb_options_set_compression;
      rocksdb_options_set_write_buffer_size = Options.rocksdb_options_set_write_buffer_size;
      rocksdb_options_set_max_write_buffer_number =
          Options.rocksdb_options_set_max_write_buffer_number;
      rocksdb_options_set_max_open_files = Options.rocksdb_options_set_max_open_files;
      rocksdb_options_set_max_background_compactions =
          Options.rocksdb_options_set_max_background_compactions;
      rocksdb_options_set_max_background_flushes =
          Options.rocksdb_options_set_max_background_flushes;
      rocksdb_options_set_level0_file_num_compaction_trigger =
          Options.rocksdb_options_set_level0_file_num_compaction_trigger;
      rocksdb_options_set_level0_slowdown_writes_trigger =
          Options.rocksdb_options_set_level0_slowdown_writes_trigger;
      rocksdb_options_set_level0_stop_writes_trigger =
          Options.rocksdb_options_set_level0_stop_writes_trigger;
      rocksdb_options_set_target_file_size_base = Options.rocksdb_options_set_target_file_size_base;
      rocksdb_options_set_max_bytes_for_level_base =
          Options.rocksdb_options_set_max_bytes_for_level_base;
      rocksdb_options_enable_statistics = Options.rocksdb_options_enable_statistics;
      rocksdb_options_optimize_for_point_lookup = Options.rocksdb_options_optimize_for_point_lookup;
      rocksdb_options_optimize_level_style_compaction =
          Options.rocksdb_options_optimize_level_style_compaction;
    };
    read_options = record {
      rocksdb_read_options_create = AccessOptions.rocksdb_read_options_create;
      rocksdb_read_options_destroy = AccessOptions.rocksdb_read_options_destroy;
      rocksdb_read_options_set_verify_checksums =
          AccessOptions.rocksdb_read_options_set_verify_checksums;
      rocksdb_read_options_set_fill_cache = AccessOptions.rocksdb_read_options_set_fill_cache;
      rocksdb_read_options_set_prefix_same_as_start =
          AccessOptions.rocksdb_read_options_set_prefix_same_as_start;
      rocksdb_read_options_set_snapshot = AccessOptions.rocksdb_read_options_set_snapshot;
    };
    write_options = record {
      rocksdb_write_options_create = AccessOptions.rocksdb_write_options_create;
      rocksdb_write_options_destroy = AccessOptions.rocksdb_write_options_destroy;
      rocksdb_write_options_set_sync = AccessOptions.rocksdb_write_options_set_sync;
      rocksdb_write_options_disable_wal = AccessOptions.rocksdb_write_options_disable_wal;
    };
    databases = record {
      rocksdb_close = Database.rocksdb_close;
      rocksdb_open = Database.rocksdb_open;
      rocksdb_open_for_read_only = Database.rocksdb_open_for_read_only;
      rocksdb_open_transactional = Database.rocksdb_open_transactional;
      rocksdb_is_transactional = Database.rocksdb_is_transactional;
    };
    key_value = record {
      rocksdb_put = Database.rocksdb_put;
      rocksdb_get = Database.rocksdb_get;
      rocksdb_delete = Database.rocksdb_delete;
      rocksdb_key_may_exist = Database.rocksdb_key_may_exist;
    };
    batches = record {
      rocksdb_batch_create = Batch.rocksdb_batch_create;
      rocksdb_batch_destroy = Batch.rocksdb_batch_destroy;
      rocksdb_batch_put = Batch.rocksdb_batch_put;
      rocksdb_batch_delete = Batch.rocksdb_batch_delete;
      rocksdb_batch_delete_range = Batch.rocksdb_batch_delete_range;
      rocksdb_batch_clear = Batch.rocksdb_batch_clear;
      rocksdb_batch_count = Batch.rocksdb_batch_count;
      rocksdb_batch_data_size = Batch.rocksdb_batch_data_size;
      rocksdb_write_batch = Batch.rocksdb_write_batch;
    };
    iterators = record {
      rocksdb_iterator_create = Iterator.rocksdb_iterator_create;
      rocksdb_iterator_destroy = Iterator.rocksdb_iterator_destroy;
      rocksdb_iterator_valid = Iterator.rocksdb_iterator_valid;
      rocksdb_iterator_seek_to_first = Iterator.rocksdb_iterator_seek_to_first;
      rocksdb_iterator_seek_to_last = Iterator.rocksdb_iterator_seek_to_last;
      rocksdb_iterator_seek = Iterator.rocksdb_iterator_seek;
      rocksdb_iterator_seek_for_prev = Iterator.rocksdb_iterator_seek_for_prev;
      rocksdb_iterator_next = Iterator.rocksdb_iterator_next;
      rocksdb_iterator_prev = Iterator.rocksdb_iterator_prev;
      rocksdb_iterator_key = Iterator.rocksdb_iterator_key;
      rocksdb_iterator_value = Iterator.rocksdb_iterator_value;
      rocksdb_iterator_status = Iterator.rocksdb_iterator_status;
    };
    transactions = record {
      rocksdb_transaction_begin = Transaction.rocksdb_transaction_begin;
      rocksdb_transaction_destroy = Transaction.rocksdb_transaction_destroy;
      rocksdb_transaction_put = Transaction.rocksdb_transaction_put;
      rocksdb_transaction_get = Transaction.rocksdb_transaction_get;
      rocksdb_transaction_get_for_update = Transaction.rocksdb_transaction_get_for_update;
      rocksdb_transaction_delete = Transaction.rocksdb_transaction_delete;
      rocksdb_transaction_create_iterator = Transaction.rocksdb_transaction_create_iterator;
      rocksdb_transaction_commit = Transaction.rocksdb_transaction_commit;
      rocksdb_transaction_rollback = Transaction.rocksdb_transaction_rollback;
      rocksdb_transaction_set_savepoint = Transaction.rocksdb_transaction_set_savepoint;
      rocksdb_transaction_rollback_to_savepoint =
          Transaction.rocksdb_transaction_rollback_to_savepoint;
    };
    snapshots = record {
      rocksdb_create_snapshot = Maintenance.rocksdb_create_snapshot;
      rocksdb_release_snapshot = Maintenance.rocksdb_release_snapshot;
    };
    maintenance = record {
      rocksdb_compact_range = Maintenance.rocksdb_compact_range;
      rocksdb_flush = Maintenance.rocksdb_flush;
      rocksdb_get_property = Maintenance.rocksdb_get_property;
      rocksdb_get_approximate_sizes = Maintenance.rocksdb_get_approximate_sizes;
    };
  }
