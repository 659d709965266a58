-- ===== src/Client/Text.antt =====
-- RocksDB.swift: the methods on strings.
pub mod RoundTrip
use rock_db_swift.Prelude.{String, Option, none, some}
use rock_db_swift.System.{System}
use rock_db_swift.Memory.{M, pure}
use rock_db_swift.Client.Error.{invalid_argument, Throws, returned, threw}
use rock_db_swift.Client.AccessOptions.{RocksDbReadOptions, RocksDbWriteOptions}
use rock_db_swift.Client.Database.{RocksDb, ◌>>?◌, put, get, delete}

module _ {S : System} where
  unfoldable pub put_string :
      RocksDb → String → String → RocksDbWriteOptions → M S (Throws (Unit {0}))
  put_string r value key options = elim (S.utf8_data key) [
    | none ↦ pure (threw (invalid_argument "Invalid UTF-8 encoding"))
    | some key_data ↦ elim (S.utf8_data value) [
      | none ↦ pure (threw (invalid_argument "Invalid UTF-8 encoding"))
      | some value_data ↦ put r value_data key_data options
    ]
  ]

  unfoldable pub get_string : RocksDb → String → RocksDbReadOptions → M S (Throws (Option String))
  get_string r key options = elim (S.utf8_data key) [
    | none ↦ pure (threw (invalid_argument "Invalid key encoding"))
    | some key_data ↦ get r key_data options >>? λ found. elim found [
      | none ↦ pure (returned none)
      | some bytes ↦ pure (returned (S.utf8_string bytes))
    ]
  ]

  unfoldable pub delete_string : RocksDb → String → RocksDbWriteOptions → M S (Throws (Unit {0}))
  delete_string r key options = elim (S.utf8_data key) [
    | none ↦ pure (threw (invalid_argument "Invalid key encoding"))
    | some key_data ↦ delete r key_data options
  ]
