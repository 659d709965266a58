-- ===== src/System/Statuses.antt =====
-- The data of `rocksdb::Status` (lib/include/rocksdb/status.h), which every call of the library
-- returns.
use rock_db_swift.Prelude.{ℕ, Bool, Option, Bytes}

-- `rocksdb::Status::Code`
pub data Code : Type 0 where
  ok not_found corruption not_supported invalid_argument io_error merge_in_progress : Code
  incomplete shutdown_in_progress timed_out aborted busy expired try_again : Code
  compaction_too_large column_family_dropped : Code

-- `rocksdb::Status::SubCode`
pub data SubCode : Type 0 where
  no_subcode mutex_timeout lock_timeout lock_limit no_space deadlock stale_file : SubCode
  memory_limit space_limit path_not_found merge_operands_insufficient_capacity : SubCode
  manual_compaction_paused overwritten txn_not_prepared io_fenced : SubCode
  merge_operator_failed merge_operand_threshold_exceeded : SubCode

-- `rocksdb::Status::Severity`
pub data Severity : Type 0 where
  no_error soft_error hard_error fatal_error unrecoverable_error : Severity

-- The members of `rocksdb::Status`. `state` is the extra message, if there is one.
pub record Status : Type 0 where
  pub code : Code
  pub subcode : SubCode
  pub sev : Severity
  pub retryable : Bool
  pub data_loss : Bool
  pub scope : ℕ
  pub state : Option Bytes
