-- ===== src/Client/Error.antt =====
-- RocksDBError.swift. A function that `throws` returns a `Throws`.
pub mod Reports
pub mod Descriptions
use rock_db_swift.Prelude.{
  ℕ, String, Bool, true, false, Option, none, some, Bytes, ◌==◌, if◌then◌else◌,
}
use rock_db_swift.System.{System}
use rock_db_swift.Memory.{Ptr, null, M, pure, ◌>>=◌, ◌>>◌, load_buffer}
use rock_db_swift.Bridge.Status.{StatusCode, CStatus, status_value, rocksdb_free_string}

pub data RocksDbError : Type 0 where
  not_found : RocksDbError
  corruption not_supported invalid_argument io_error : String → RocksDbError
  merge_in_progress incomplete : String → RocksDbError
  shutdown_in_progress timed_out : RocksDbError
  aborted : String → RocksDbError
  busy expired try_again : RocksDbError
  compaction_too_large : String → RocksDbError
  database_closed : RocksDbError
  transaction_conflict : String → RocksDbError

pub data Throws (A : Type 0) : Type 0 where
  returned : A → Throws A
  threw : RocksDbError → Throws A

-- The `switch` of `from`, on a code that is not OK.
unfoldable pub error_of : StatusCode → String → RocksDbError
error_of StatusCode.ok message = io_error message
error_of StatusCode.not_found message = not_found
error_of StatusCode.corruption message = corruption message
error_of StatusCode.not_supported message = not_supported message
error_of StatusCode.invalid_argument message = invalid_argument message
error_of StatusCode.io_error message = io_error message
error_of StatusCode.merge_in_progress message = merge_in_progress message
error_of StatusCode.incomplete message = incomplete message
error_of StatusCode.shutdown_in_progress message = shutdown_in_progress
error_of StatusCode.timed_out message = timed_out
error_of StatusCode.aborted message = aborted message
error_of StatusCode.busy message = busy
error_of StatusCode.expired message = expired
error_of StatusCode.try_again message = try_again
error_of StatusCode.compaction_too_large message = compaction_too_large message

-- `status.code == code`
unfoldable pub has_code : CStatus → StatusCode → Bool
unfolding status_value
has_code status code = status_value status.code == status_value code

module _ {S : System} where
  -- `String(cString:)` of a message that may be null.
  unfoldable pub message_or : String → Ptr → M S String
  unfolding load_buffer
  message_or missing message =
      if message == null
      then pure missing
      else do bytes ← load_buffer message; pure (S.c_string bytes)

  unfoldable pub from : CStatus → M S (Option RocksDbError)
  unfolding has_code message_or error_of
  from status = if has_code status StatusCode.ok then pure none else do
    message ← message_or "Unknown error" status.message
    pure (some (error_of status.code message))

  -- `if let msg = status.message { rocksdb_free_string(msg) }`
  unfoldable pub free_message : CStatus → M S (Unit {0})
  unfolding rocksdb_free_string
  free_message status =
      if status.message == null then pure tt else rocksdb_free_string status.message

  unfoldable pub check : CStatus → M S (Throws (Unit {0}))
  unfolding from free_message
  check status = do
    found ← from status
    elim found [
      | none ↦ pure (returned tt)
      | some error ↦ free_message status >> pure (threw error)
    ]

  unfoldable pub check_for_get : CStatus → M S (Throws (Unit {0}))
  unfolding has_code free_message check
  check_for_get status =
      if has_code status StatusCode.not_found
      then free_message status >> pure (returned tt)
      else check status
