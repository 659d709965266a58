-- ===== src/Client/Maintenance.antt =====
-- RocksDB.swift: "Maintenance Operations".
pub mod Calls
use rock_db_swift.Prelude.{String, Bool, Option, none, some, Bytes}
use rock_db_swift.Prelude.Int.{ℤ, to_int}
use rock_db_swift.System.{System}
use rock_db_swift.Memory.{Ptr, M, pure, ◌>>=◌, ◌>>◌, load_buffer}
use rock_db_swift.Bridge.Status.{rocksdb_free_string}
use rock_db_swift.Bridge.Maintenance.{rocksdb_compact_range, rocksdb_flush, rocksdb_get_property}
use rock_db_swift.Client.Error.{database_closed, Throws, threw, check}
use rock_db_swift.Client.Database.{RocksDb, optional}

module _ {S : System} where
  -- A nil bound is passed as a null pointer.
  unfoldable pub compact_range : RocksDb → Option Bytes → Option Bytes → M S (Throws (Unit {0}))
  compact_range r start_key end_key = elim r.handle [
    | none ↦ pure (threw database_closed)
    | some h ↦ do status ← rocksdb_compact_range h start_key end_key; check status
  ]

  unfoldable pub flush : RocksDb → Bool → M S (Throws (Unit {0}))
  flush r wait = elim r.handle [
    | none ↦ pure (threw database_closed)
    | some h ↦ do status ← rocksdb_flush h (to_int wait); check status
  ]

  -- The text behind a pointer is read and freed.
  unfoldable pub copied_text : Ptr → M S (Option String)
  copied_text p = elim (optional p) [
    | none ↦ pure none
    | some p ↦ do bytes ← load_buffer p; rocksdb_free_string p; pure (some (S.c_string bytes))
  ]

  unfoldable pub get_property : RocksDb → String → M S (Option String)
  get_property r name = elim r.handle [
    | none ↦ pure none
    | some h ↦ do p ← rocksdb_get_property h name; copied_text p
  ]

  unfoldable pub estimated_key_count : RocksDb → M S (Option ℤ)
  estimated_key_count r = do
    value ← get_property r "rocksdb.estimate-num-keys"
    pure (elim value [ none ↦ none | some v ↦ S.parse_int v ])

  unfoldable pub memory_usage : RocksDb → M S (Option String)
  memory_usage r = get_property r "rocksdb.cur-size-all-mem-tables"
