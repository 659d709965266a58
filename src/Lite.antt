-- ===== src/Lite.antt =====
-- Sources/RocksDBSwiftLite: RocksDBLite.swift, a wrapper with its own error type and the library's
-- default options.
pub mod Writes
pub mod Reads
pub mod Agreement
use rock_db_swift.Prelude.{ℕ, String, Bool, Option, none, some, Bytes, if◌then◌else◌, is_some}
use Prim.Native.String.{◌++◌}
use rock_db_swift.Prelude.Int.{to_int}
use rock_db_swift.System.{System}
use rock_db_swift.Memory.{Ptr, M, pure, ◌>>=◌, ◌>>◌, with_handle}
use rock_db_swift.Bridge.Status.{StatusCode, CStatus, rocksdb_free_data}
use rock_db_swift.Bridge.Options.{
  rocksdb_options_create, rocksdb_options_destroy, rocksdb_options_set_create_if_missing,
}
use rock_db_swift.Bridge.AccessOptions.{
  rocksdb_read_options_create, rocksdb_read_options_destroy, rocksdb_write_options_create,
  rocksdb_write_options_destroy,
}
use rock_db_swift.Bridge.Database.{
  OpenResult, GetResult, rocksdb_open, rocksdb_open_for_read_only, rocksdb_close, rocksdb_put,
  rocksdb_get, rocksdb_delete,
}
use rock_db_swift.Client.Error.{has_code, message_or, free_message}
use rock_db_swift.Client.Database.{optional, data_bytes}

pub data RocksDbLiteError : Type 0 where
  open_failed : String → RocksDbLiteError
  database_closed : RocksDbLiteError
  operation_failed : String → RocksDbLiteError
  invalid_encoding : RocksDbLiteError

-- `errorDescription`
abbrev pub error_description : RocksDbLiteError → String
error_description (open_failed message) = "Failed to open database: " ++ message
error_description database_closed = "Database is closed"
error_description (operation_failed message) = "Operation failed: " ++ message
error_description invalid_encoding = "Invalid UTF-8 encoding"

pub data Throws (A : Type 0) : Type 0 where
  returned : A → Throws A
  threw : RocksDbLiteError → Throws A

pub record RocksDbLite : Type 0 where
  pub handle : Option Ptr
  pub path : String

unfoldable pub is_open : RocksDbLite → Bool
is_open r = is_some r.handle

module _ {S : System} where
  abbrev pub resume : {A B : Type 0} → (A → M S (Throws B)) → Throws A → M S (Throws B)
  resume k (returned a) = k a
  resume k (threw e) = pure (threw e)

  infixl 5 ◌>>?◌
  abbrev pub ◌>>?◌ : {A B : Type 0} → M S (Throws A) → (A → M S (Throws B)) → M S (Throws B)
  m >>? k = m >>= resume k

  -- `if status.code != RocksDBStatusOK { … }`: the message, or the stand-in, goes into the error.
  unfoldable pub require_ok :
      String → (String → RocksDbLiteError) → CStatus → M S (Throws (Unit {0}))
  require_ok missing failure status =
      if has_code status StatusCode.ok then pure (returned tt) else do
        message ← message_or missing status.message
        free_message status
        pure (threw (failure message))

  unfoldable pub opened : String → OpenResult → M S (Throws RocksDbLite)
  opened path result = require_ok "Unknown error" open_failed result.status >>? λ _.
      elim (optional result.db_out) [
        | none ↦ pure (threw (open_failed "Failed to open database"))
        | some h ↦ pure (returned (record { handle = some h; path = path }))
      ]

  unfoldable pub open_at : String → Bool → M S (Throws RocksDbLite)
  open_at path create_if_missing =
      with_handle rocksdb_options_create rocksdb_options_destroy λ opts. do
        rocksdb_options_set_create_if_missing opts (to_int create_if_missing)
        result ← rocksdb_open path opts
        opened path result

  unfoldable pub open_read_only : String → M S (Throws RocksDbLite)
  open_read_only path =
      with_handle rocksdb_options_create rocksdb_options_destroy
        λ opts. do result ← rocksdb_open_for_read_only path opts 0; opened path result

  unfoldable pub close : RocksDbLite → M S RocksDbLite
  close r = elim r.handle [
    | none ↦ pure r
    | some h ↦ do rocksdb_close h; pure (record r { handle = none })
  ]

  unfoldable pub put : RocksDbLite → Bytes → Bytes → M S (Throws (Unit {0}))
  put r value key = elim r.handle [
    | none ↦ pure (threw database_closed)
    | some h ↦ with_handle rocksdb_write_options_create rocksdb_write_options_destroy λ opts. do
      status ← rocksdb_put h opts key value
      require_ok "Put failed" operation_failed status
  ]

  -- The value behind a pointer is read and freed.
  unfoldable pub copied_value : Ptr → ℕ → M S (Throws (Option Bytes))
  copied_value p count = elim (optional p) [
    | none ↦ pure (returned none)
    | some p ↦ do bytes ← data_bytes p count; rocksdb_free_data p; pure (returned (some bytes))
  ]

  unfoldable pub finish_value : GetResult → M S (Throws (Option Bytes))
  finish_value result =
      if has_code result.status StatusCode.not_found
      then free_message result.status >> pure (returned none)
      else require_ok "Get failed" operation_failed result.status >>? λ _.
          copied_value result.value_out result.value_len_out

  unfoldable pub get : RocksDbLite → Bytes → M S (Throws (Option Bytes))
  get r key = elim r.handle [
    | none ↦ pure (threw database_closed)
    | some h ↦
        with_handle rocksdb_read_options_create rocksdb_read_options_destroy
          λ opts. do result ← rocksdb_get h opts key; finish_value result
  ]

  unfoldable pub delete : RocksDbLite → Bytes → M S (Throws (Unit {0}))
  delete r key = elim r.handle [
    | none ↦ pure (threw database_closed)
    | some h ↦ with_handle rocksdb_write_options_create rocksdb_write_options_destroy λ opts. do
      status ← rocksdb_delete h opts key
      require_ok "Delete failed" operation_failed status
  ]

  unfoldable pub put_string : RocksDbLite → String → String → M S (Throws (Unit {0}))
  put_string r value key = elim (S.utf8_data key) [
    | none ↦ pure (threw invalid_encoding)
    | some key_data ↦ elim (S.utf8_data value) [
      | none ↦ pure (threw invalid_encoding)
      | some value_data ↦ put r value_data key_data
    ]
  ]

  unfoldable pub get_string : RocksDbLite → String → M S (Throws (Option String))
  get_string r key = elim (S.utf8_data key) [
    | none ↦ pure (threw invalid_encoding)
    | some key_data ↦ get r key_data >>? λ found. elim found [
      | none ↦ pure (returned none)
      | some bytes ↦ pure (returned (S.utf8_string bytes))
    ]
  ]

  unfoldable pub delete_string : RocksDbLite → String → M S (Throws (Unit {0}))
  delete_string r key = elim (S.utf8_data key) [
    | none ↦ pure (threw invalid_encoding)
    | some key_data ↦ delete r key_data
  ]
