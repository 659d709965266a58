-- ===== src/Client/Database.antt =====
-- RocksDB.swift: opening, closing, and the basic and maintenance operations. The lock is held for
-- the whole of each method, so a method is one command. A method that changes the object returns
-- the new one.
pub mod Writes
pub mod Reads
pub mod Try
pub mod Opening
pub mod OtherOpenings
pub mod Closing
pub mod RoundTrip
use rock_db_swift.Prelude.{
  ℕ, String, Bool, true, false, not, Option, none, some, Bytes, ◌==◌, leb, if◌then◌else◌, is_some,
  length, take,
}
use rock_db_swift.Prelude.Int.{to_int}
use rock_db_swift.System.{System}
use rock_db_swift.Memory.{Ptr, null, M, pure, stop, dangling, ◌>>=◌, ◌>>◌, with_handle, load_buffer}
use rock_db_swift.Bridge.Status.{StatusCode, CStatus, rocksdb_free_string, rocksdb_free_data}
use rock_db_swift.Bridge.Options.{rocksdb_options_destroy}
use rock_db_swift.Bridge.AccessOptions.{rocksdb_read_options_destroy, rocksdb_write_options_destroy}
use rock_db_swift.Bridge.Database.{
  OpenResult, GetResult, rocksdb_open, rocksdb_open_for_read_only, rocksdb_open_transactional,
  rocksdb_close, rocksdb_put, rocksdb_get, rocksdb_delete, rocksdb_key_may_exist,
}
use rock_db_swift.Bridge.Maintenance.{rocksdb_compact_range, rocksdb_flush, rocksdb_get_property}
use rock_db_swift.Client.Error.{
  RocksDbError, io_error, invalid_argument, database_closed, Throws, returned, threw, has_code,
  free_message, check,
}
use rock_db_swift.Client.Options.{RocksDbOptions, create_handle}
use rock_db_swift.Client.AccessOptions.{
  RocksDbReadOptions, RocksDbWriteOptions, create_read_handle, create_write_handle,
}

-- The mutable state of the class and its constants. A nil handle is `none`.
pub record RocksDb : Type 0 where
  pub handle : Option Ptr
  pub path : String
  pub is_transactional : Bool

unfoldable pub is_open : RocksDb → Bool
is_open r = is_some r.handle

-- A nullable C pointer, as Swift reads it.
unfoldable pub optional : Ptr → Option Ptr
optional p = if p == null then none else some p

module _ {S : System} where
  abbrev pub resume : {A B : Type 0} → (A → M S (Throws B)) → Throws A → M S (Throws B)
  resume k (returned a) = k a
  resume k (threw e) = pure (threw e)

  -- `try`: an error ends the enclosing function.
  infixl 5 ◌>>?◌
  abbrev pub ◌>>?◌ : {A B : Type 0} → M S (Throws A) → (A → M S (Throws B)) → M S (Throws B)
  m >>? k = m >>= resume k

  -- `guard let handle = dbHandle else { throw … }`, and the new object.
  unfoldable pub handed_out : String → Bool → String → Ptr → M S (Throws RocksDb)
  handed_out path transactional failure p = elim (optional p) [
    | none ↦ pure (threw (io_error failure))
    | some h ↦
        pure (returned (record { handle = some h; path = path; is_transactional = transactional }))
  ]

  -- The end of the three functions that open.
  unfoldable pub opened : String → Bool → String → OpenResult → M S (Throws RocksDb)
  opened path transactional failure result =
      check result.status >>? λ _. handed_out path transactional failure result.db_out

  unfoldable pub open_at : String → RocksDbOptions → M S (Throws RocksDb)
  open_at path options =
      with_handle (create_handle options) rocksdb_options_destroy λ opts. do
        result ← rocksdb_open path opts
        opened path false "Failed to open database" result

  unfoldable pub open_read_only : String → RocksDbOptions → Bool → M S (Throws RocksDb)
  open_read_only path options error_if_wal_exists =
      with_handle (create_handle options) rocksdb_options_destroy λ opts. do
        result ← rocksdb_open_for_read_only path opts (to_int error_if_wal_exists)
        opened path false "Failed to open database" result

  unfoldable pub open_with_transactions : String → RocksDbOptions → M S (Throws RocksDb)
  open_with_transactions path options =
      with_handle (create_handle options) rocksdb_options_destroy λ opts. do
        result ← rocksdb_open_transactional path opts
        opened path true "Failed to open transactional database" result

  -- `close`, and `deinit`, which calls it.
  unfoldable pub close : RocksDb → M S RocksDb
  close r = elim r.handle [
    | none ↦ pure r
    | some h ↦ do rocksdb_close h; pure (record r { handle = none })
  ]

  unfoldable pub put : RocksDb → Bytes → Bytes → RocksDbWriteOptions → M S (Throws (Unit {0}))
  put r value key options = elim r.handle [
    | none ↦ pure (threw database_closed)
    | some h ↦
        with_handle (create_write_handle options) rocksdb_write_options_destroy
          λ opts. do status ← rocksdb_put h opts key value; check status
  ]

  -- `Data(bytes: ptr, count: count)`
  unfoldable pub data_bytes : Ptr → ℕ → M S Bytes
  data_bytes p count = do
    bytes ← load_buffer p
    if leb count (length bytes) then pure (take count bytes) else stop dangling

  -- The value behind a pointer is read and freed.
  unfoldable pub copied_value : Ptr → ℕ → M S (Throws (Option Bytes))
  copied_value p count = elim (optional p) [
    | none ↦ pure (returned none)
    | some p ↦ do bytes ← data_bytes p count; rocksdb_free_data p; pure (returned (some bytes))
  ]

  -- The end of a get: `NotFound` is nil.
  unfoldable pub finish_value : GetResult → M S (Throws (Option Bytes))
  finish_value result =
      if has_code result.status StatusCode.not_found
      then free_message result.status >> pure (returned none)
      else check result.status >>? λ _. copied_value result.value_out result.value_len_out

  unfoldable pub get : RocksDb → Bytes → RocksDbReadOptions → M S (Throws (Option Bytes))
  get r key options = elim r.handle [
    | none ↦ pure (threw database_closed)
    | some h ↦
        with_handle (create_read_handle options) rocksdb_read_options_destroy
          λ opts. do result ← rocksdb_get h opts key; finish_value result
  ]

  unfoldable pub delete : RocksDb → Bytes → RocksDbWriteOptions → M S (Throws (Unit {0}))
  delete r key options = elim r.handle [
    | none ↦ pure (threw database_closed)
    | some h ↦
        with_handle (create_write_handle options) rocksdb_write_options_destroy
          λ opts. do status ← rocksdb_delete h opts key; check status
  ]

  unfoldable pub key_may_exist : RocksDb → Bytes → RocksDbReadOptions → M S Bool
  key_may_exist r key options = elim r.handle [
    | none ↦ pure false
    | some h ↦
        with_handle (create_read_handle options) rocksdb_read_options_destroy
          λ opts. do found ← rocksdb_key_may_exist h opts key; pure (not (found == 0))
  ]
