-- ===== src/Client/Error/Descriptions.antt =====
-- `errorDescription` of RocksDBError.swift.
use rock_db_swift.Prelude.{String}
use Prim.Native.String.{◌++◌}
use rock_db_swift.Client.Error.{
  RocksDbError, not_found, corruption, not_supported, invalid_argument, io_error, merge_in_progress,
  incomplete, shutdown_in_progress, timed_out, aborted, busy, expired, try_again,
  compaction_too_large, database_closed, transaction_conflict,
}

abbrev pub error_description : RocksDbError → String
error_description not_found = "Key not found"
error_description (corruption msg) = "Database corruption: " ++ msg
error_description (not_supported msg) = "Operation not supported: " ++ msg
error_description (invalid_argument msg) = "Invalid argument: " ++ msg
error_description (io_error msg) = "I/O error: " ++ msg
error_description (merge_in_progress msg) = "Merge in progress: " ++ msg
error_description (incomplete msg) = "Operation incomplete: " ++ msg
error_description shutdown_in_progress = "Database shutdown in progress"
error_description timed_out = "Operation timed out"
error_description (aborted msg) = "Operation aborted: " ++ msg
error_description busy = "Database busy"
error_description expired = "Operation expired"
error_description try_again = "Try again"
error_description (compaction_too_large msg) = "Compaction too large: " ++ msg
error_description database_closed = "Database is closed"
error_description (transaction_conflict msg) = "Transaction conflict: " ++ msg
