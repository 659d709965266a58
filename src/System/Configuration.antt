-- ===== src/System/Configuration.antt =====
-- The part of `rocksdb::DBOptions` (lib/include/rocksdb/options.h) in which the bridge assigns
-- fields, in the order of the source. An object behind a pointer is known by number only.
use rock_db_swift.Prelude.{ℕ, ◌*◌, String, Bool, true, false, Option, none, List, []}
use rock_db_swift.Prelude.Int.{ℤ, pos, negsuc}

-- `rocksdb::InfoLogLevel`
pub data InfoLogLevel : Type 0 where
  debug_level info_level warn_level error_level fatal_level header_level : InfoLogLevel

-- `rocksdb::DbPath`
pub record DbPath : Type 0 where
  pub path : String
  pub target_size : ℕ

-- From `create_if_missing` to `sst_file_manager`: what is done on opening, the checks, and the
-- objects that the database uses.
pub record DbOptions : Type 0 where
  pub create_if_missing : Bool
  pub create_missing_column_families : Bool
  pub error_if_exists : Bool
  pub paranoid_checks : Bool
  pub flush_verify_memtable_count : Bool
  pub compaction_verify_record_count : Bool
  pub track_and_verify_wals_in_manifest : Bool
  pub verify_sst_unique_id_in_manifest : Bool
  pub env : ℕ
  pub rate_limiter : Option ℕ
  pub sst_file_manager : Option ℕ

-- From `info_log` to `max_background_compactions`: log, files, directories and threads.
-- `statistics` says whether there is an object that collects them.
pub record DbResources : Type 0 where
  pub info_log : Option ℕ
  pub info_log_level : InfoLogLevel
  pub max_open_files : ℤ
  pub max_file_opening_threads : ℤ
  pub max_total_wal_size : ℕ
  pub statistics : Bool
  pub use_fsync : Bool
  pub db_paths : List DbPath
  pub db_log_dir : String
  pub wal_dir : String
  pub delete_obsolete_files_period_micros : ℕ
  pub max_background_jobs : ℤ
  pub max_background_compactions : ℤ

-- The defaults, at the default environment.
abbrev pub new_db_options : ℕ → DbOptions
new_db_options env = record {
  create_if_missing = false;
  create_missing_column_families = false;
  error_if_exists = false;
  paranoid_checks = true;
  flush_verify_memtable_count = true;
  compaction_verify_record_count = true;
  track_and_verify_wals_in_manifest = false;
  verify_sst_unique_id_in_manifest = true;
  env = env;
  rate_limiter = none;
  sst_file_manager = none;
}

-- The defaults, at the default log level of the build.
abbrev pub new_db_resources : InfoLogLevel → DbResources
new_db_resources level = record {
  info_log = none;
  info_log_level = level;
  max_open_files = negsuc 0;
  max_file_opening_threads = pos 16;
  max_total_wal_size = 0;
  statistics = false;
  use_fsync = false;
  db_paths = [];
  db_log_dir = "";
  wal_dir = "";
  delete_obsolete_files_period_micros = 6 * 60 * 60 * 1000000;
  max_background_jobs = pos 2;
  max_background_compactions = negsuc 0;
}
