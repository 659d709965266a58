-- ===== src/Bridge/Status.antt =====
-- Status codes, `make_status`, `make_ok`, and the two deallocators of RocksDBBridge.cpp; the
-- predicates of `rocksdb::Status` (lib/include/rocksdb/status.h) that `make_status` asks.
use rock_db_swift.Prelude.{ℕ, String, Bool, ◌==◌, if◌then◌else◌, codes}
use rock_db_swift.System.{System, Code, Status}
use rock_db_swift.Memory.{Ptr, null, M, pure, ◌>>=◌, strdup, free}

-- `RocksDBStatusCode`
pub data StatusCode : Type 0 where
  ok not_found corruption not_supported invalid_argument io_error merge_in_progress : StatusCode
  incomplete shutdown_in_progress timed_out aborted busy expired try_again : StatusCode
  compaction_too_large : StatusCode

-- `RocksDBStatus`: the receiver frees the message.
pub record CStatus : Type 0 where
  pub code : StatusCode
  pub message : Ptr

-- The values of `rocksdb::Status::Code`.
unfoldable pub code_value : Code → ℕ
code_value Code.ok = 0
code_value Code.not_found = 1
code_value Code.corruption = 2
code_value Code.not_supported = 3
code_value Code.invalid_argument = 4
code_value Code.io_error = 5
code_value Code.merge_in_progress = 6
code_value Code.incomplete = 7
code_value Code.shutdown_in_progress = 8
code_value Code.timed_out = 9
code_value Code.aborted = 10
code_value Code.busy = 11
code_value Code.expired = 12
code_value Code.try_again = 13
code_value Code.compaction_too_large = 14
code_value Code.column_family_dropped = 15

-- The values of `RocksDBStatusCode`.
unfoldable pub status_value : StatusCode → ℕ
status_value StatusCode.ok = 0
status_value StatusCode.not_found = 1
status_value StatusCode.corruption = 2
status_value StatusCode.not_supported = 3
status_value StatusCode.invalid_argument = 4
status_value StatusCode.io_error = 5
status_value StatusCode.merge_in_progress = 6
status_value StatusCode.incomplete = 7
status_value StatusCode.shutdown_in_progress = 8
status_value StatusCode.timed_out = 9
status_value StatusCode.aborted = 10
status_value StatusCode.busy = 11
status_value StatusCode.expired = 12
status_value StatusCode.try_again = 13
status_value StatusCode.compaction_too_large = 14

-- `s.ok()`, `s.IsNotFound()` and so on: comparisons of the code.
unfoldable pub is_code : Status → Code → Bool
unfolding code_value
is_code s c = code_value s.code == code_value c

-- The chain of tests in `make_status`, for a status that is not OK.
unfoldable pub error_code : Status → StatusCode
unfolding is_code
error_code s =
    if is_code s Code.not_found
    then StatusCode.not_found
    else if is_code s Code.corruption
    then StatusCode.corruption
    else if is_code s Code.not_supported
    then StatusCode.not_supported
    else if is_code s Code.invalid_argument
    then StatusCode.invalid_argument
    else if is_code s Code.io_error
    then StatusCode.io_error
    else if is_code s Code.merge_in_progress
    then StatusCode.merge_in_progress
    else if is_code s Code.incomplete
    then StatusCode.incomplete
    else if is_code s Code.shutdown_in_progress
    then StatusCode.shutdown_in_progress
    else if is_code s Code.timed_out
    then StatusCode.timed_out
    else if is_code s Code.aborted
    then StatusCode.aborted
    else if is_code s Code.busy
    then StatusCode.busy
    else if is_code s Code.expired
    then StatusCode.expired
    else if is_code s Code.try_again
    then StatusCode.try_again
    else if is_code s Code.compaction_too_large
    then StatusCode.compaction_too_large
    else StatusCode.io_error

unfoldable pub make_ok : CStatus
make_ok = record { code = StatusCode.ok; message = null }

module _ {S : System} where
  unfoldable pub make_status : Status → M S CStatus
  unfolding is_code error_code strdup
  make_status s =
      if is_code s Code.ok then pure (record { code = StatusCode.ok; message = null }) else do
        message ← strdup (S.to_string s)
        pure (record { code = error_code s; message = message })

  -- A status of the bridge's own: its guards against null handles.
  unfoldable pub null_argument : String → M S CStatus
  unfolding strdup
  null_argument text = do
    message ← strdup (codes text)
    pure (record { code = StatusCode.invalid_argument; message = message })

  unfoldable pub rocksdb_free_string : Ptr → M S (Unit {0})
  unfolding free
  rocksdb_free_string str = free str

  unfoldable pub rocksdb_free_data : Ptr → M S (Unit {0})
  unfolding free
  rocksdb_free_data data_ptr = free data_ptr
