-- ===== src/Client/Iterator.antt =====
-- RocksDBIterator.swift, and the method of RocksDB.swift that makes an iterator.
pub mod Cursors
pub mod Making
use rock_db_swift.Prelude.{
  ℕ, String, Bool, true, false, not, Option, none, some, Bytes, ◌==◌, if◌then◌else◌,
}
use rock_db_swift.System.{System}
use rock_db_swift.Memory.{Ptr, M, pure, ◌>>=◌, ◌>>◌, with_handle}
use rock_db_swift.Bridge.Status.{CStatus}
use rock_db_swift.Bridge.AccessOptions.{rocksdb_read_options_destroy}
use rock_db_swift.Bridge.Iterator.{
  rocksdb_iterator_create, rocksdb_iterator_destroy, rocksdb_iterator_valid,
  rocksdb_iterator_seek_to_first, rocksdb_iterator_seek_to_last, rocksdb_iterator_seek,
  rocksdb_iterator_seek_for_prev, rocksdb_iterator_next, rocksdb_iterator_prev,
  rocksdb_iterator_key, rocksdb_iterator_value, rocksdb_iterator_status,
}
use rock_db_swift.Client.Error.{io_error, database_closed, Throws, returned, threw, check}
use rock_db_swift.Client.AccessOptions.{RocksDbReadOptions, create_read_handle}
use rock_db_swift.Client.Database.{RocksDb, optional}

pub record RocksDbIterator : Type 0 where
  pub handle : Option Ptr

abbrev pub Entry : Type 0
Entry = Bytes × Bytes

-- The pair of what the bridge's getters return, if neither is null.
abbrev pub pair : Option Bytes → Option Bytes → Option Entry
pair none v = none
pair (some k) none = none
pair (some k) (some v) = some (k, v)

module _ {S : System} where
  -- `guard let handle = … else { throw … }`, and the new object.
  unfoldable pub handed_iterator : String → Ptr → M S (Throws RocksDbIterator)
  handed_iterator failure p = elim (optional p) [
    | none ↦ pure (threw (io_error failure))
    | some p ↦ pure (returned (record { handle = some p }))
  ]

  unfoldable pub make_iterator : RocksDb → RocksDbReadOptions → M S (Throws RocksDbIterator)
  make_iterator r options = elim r.handle [
    | none ↦ pure (threw database_closed)
    | some h ↦
        with_handle (create_read_handle options) rocksdb_read_options_destroy λ opts. do
          p ← rocksdb_iterator_create h opts
          handed_iterator "Failed to create iterator" p
  ]

  -- `close`, and `deinit`, which calls it.
  unfoldable pub close : RocksDbIterator → M S RocksDbIterator
  close it = elim it.handle [
    | none ↦ pure it
    | some h ↦ do rocksdb_iterator_destroy h; pure (record { handle = none })
  ]

  unfoldable pub is_valid : RocksDbIterator → M S Bool
  is_valid it = elim it.handle [
    | none ↦ pure false
    | some h ↦ do v ← rocksdb_iterator_valid h; pure (not (v == 0))
  ]

  -- `guard let h = handle else { return }`
  unfoldable pub with_iterator : RocksDbIterator → (Ptr → M S (Unit {0})) → M S (Unit {0})
  with_iterator it act = elim it.handle [ none ↦ pure tt | some h ↦ act h ]

  unfoldable pub seek_to_first : RocksDbIterator → M S (Unit {0})
  unfolding with_iterator
  seek_to_first it = with_iterator it rocksdb_iterator_seek_to_first

  unfoldable pub seek_to_last : RocksDbIterator → M S (Unit {0})
  unfolding with_iterator
  seek_to_last it = with_iterator it rocksdb_iterator_seek_to_last

  unfoldable pub seek : RocksDbIterator → Bytes → M S (Unit {0})
  unfolding with_iterator
  seek it key = with_iterator it λ h. rocksdb_iterator_seek h key

  unfoldable pub seek_string : RocksDbIterator → String → M S (Unit {0})
  seek_string it key = elim (S.utf8_data key) [ none ↦ pure tt | some data_key ↦ seek it data_key ]

  unfoldable pub seek_for_prev : RocksDbIterator → Bytes → M S (Unit {0})
  unfolding with_iterator
  seek_for_prev it key = with_iterator it λ h. rocksdb_iterator_seek_for_prev h key

  unfoldable pub next : RocksDbIterator → M S (Unit {0})
  unfolding with_iterator
  next it = with_iterator it rocksdb_iterator_next

  unfoldable pub prev : RocksDbIterator → M S (Unit {0})
  unfolding with_iterator
  prev it = with_iterator it rocksdb_iterator_prev

  unfoldable pub key : RocksDbIterator → M S (Option Bytes)
  key it = elim it.handle [ none ↦ pure none | some h ↦ rocksdb_iterator_key h ]

  unfoldable pub value : RocksDbIterator → M S (Option Bytes)
  value it = elim it.handle [ none ↦ pure none | some h ↦ rocksdb_iterator_value h ]

  -- `String(data: bytes, encoding: .utf8)` of what a getter found.
  abbrev decoded : Option Bytes → M S (Option String)
  decoded none = pure none
  decoded (some bytes) = pure (S.utf8_string bytes)

  unfoldable pub key_string : RocksDbIterator → M S (Option String)
  key_string it = do found ← key it; decoded found

  unfoldable pub value_string : RocksDbIterator → M S (Option String)
  value_string it = do found ← value it; decoded found

  unfoldable pub key_value : RocksDbIterator → M S (Option Entry)
  key_value it = elim it.handle [
    | none ↦ pure none
    | some h ↦ do
      v ← rocksdb_iterator_valid h
      if v == 0 then pure none else do
        found_key ← rocksdb_iterator_key h
        found_value ← rocksdb_iterator_value h
        pure (pair found_key found_value)
  ]

  unfoldable pub check_status : RocksDbIterator → M S (Throws (Unit {0}))
  check_status it = elim it.handle [
    | none ↦ pure (returned tt)
    | some h ↦ do status ← rocksdb_iterator_status h; check status
  ]

-- `RocksDBIterator.Iterator`, the state of a `for` loop over an iterator.
pub record Cursor : Type 0 where
  pub rocks_iterator : RocksDbIterator
  pub started : Bool

abbrev pub make_cursor : RocksDbIterator → Cursor
make_cursor it = record { rocks_iterator = it; started = false }

module _ {S : System} where
  -- `mutating func next()`
  unfoldable pub cursor_next : Cursor → M S (Option Entry × Cursor)
  cursor_next c = do
    if c.started then next c.rocks_iterator else seek_to_first c.rocks_iterator
    found ← key_value c.rocks_iterator
    pure (found, record c { started = true })
