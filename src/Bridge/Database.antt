-- ===== src/Bridge/Database.antt =====
-- "Database Operations", "Key-Value Operations" and the destructor of `RocksDBHandle` in
-- RocksDBBridge.cpp.
pub mod Live
use rock_db_swift.Prelude.{
  ℕ, String, Bool, true, false, not, Option, none, some, Bytes, ◌==◌, if◌then◌else◌, length,
}
use rock_db_swift.Prelude.Int.{to_bool, to_int}
use rock_db_swift.System.{System, Code, Status, Options}
use rock_db_swift.Memory.{
  Ptr, null, DbHandle, db, M, pure, stop, dangling, ◌>>=◌, ◌>>◌, call, effect, ask, requires, new,
  store, free, malloc_copy, load_db, load_options,
}
use rock_db_swift.Bridge.Status.{StatusCode, CStatus, is_code, make_status, null_argument}
use rock_db_swift.Bridge.AccessOptions.{read_options_or_default, write_options_or_default}

-- The status, and the handle that the out parameter receives.
pub record OpenResult : Type 0 where
  pub status : CStatus
  pub db_out : Ptr

-- The status, and the copy of the value that the out parameters receive.
pub record GetResult : Type 0 where
  pub status : CStatus
  pub value_out : Ptr
  pub value_len_out : ℕ

abbrev pub new_handle : DbHandle
new_handle = record { db = none; txn_db = none; is_transactional = false }

module _ {S : System} where
  -- `delete` of library databases. Their iterators must have been deleted before.
  unfoldable pub delete_library_db : ℕ → M S (Unit {0})
  delete_library_db d = do requires S (λ s. not (S.has_iterators d s)); effect S (S.delete_db d)

  unfoldable pub delete_library_txn_db : ℕ → M S (Unit {0})
  delete_library_txn_db d = do
    requires S (λ s. not (S.has_iterators d s))
    effect S (S.delete_txn_db d)

  -- `~RocksDBHandle`
  unfoldable pub destruct : DbHandle → M S (Unit {0})
  destruct h = elim (if h.is_transactional then h.txn_db else none) [
    | some t ↦ delete_library_txn_db t
    | none ↦ elim h.db [ some d ↦ delete_library_db d | none ↦ pure tt ]
  ]

  -- `delete handle`
  unfoldable pub rocksdb_close : Ptr → M S (Unit {0})
  rocksdb_close p = if p == null then pure tt else do h ← load_db p; destruct h; free p

  -- The end of the functions that open: the handle is handed out, or deleted again.
  unfoldable pub finish_open : Ptr → Status → M S OpenResult
  finish_open handle s =
      if is_code s Code.ok
      then (do status ← make_status s; pure (record { status = status; db_out = handle }))
      else do
        rocksdb_close handle
        status ← make_status s
        pure (record { status = status; db_out = null })

  unfoldable pub rocksdb_open : String → Ptr → M S OpenResult
  rocksdb_open path opts = do
    handle ← new (db new_handle)
    o ← load_options opts
    (s, d) ← call S (S.open_db o path)
    store handle (db (record new_handle { db = d }))
    finish_open handle s

  unfoldable pub rocksdb_open_for_read_only : String → Ptr → ℕ → M S OpenResult
  rocksdb_open_for_read_only path opts error_if_wal_exists = do
    handle ← new (db new_handle)
    o ← load_options opts
    (s, d) ← call S (S.open_for_read_only o path (to_bool error_if_wal_exists))
    store handle (db (record new_handle { db = d }))
    finish_open handle s

  -- `handle->txn_db->GetBaseDB()`
  unfoldable pub base_db : Option ℕ → M S (Option ℕ)
  base_db none = stop dangling
  base_db (some t) = ask S (S.get_base_db t)

  unfoldable pub rocksdb_open_transactional : String → Ptr → M S OpenResult
  rocksdb_open_transactional path opts = do
    handle ← new (db (record new_handle { is_transactional = true }))
    o ← load_options opts
    (s, t) ← call S (S.open_txn_db o path)
    store handle (db (record new_handle { txn_db = t; is_transactional = true }))
    if is_code s Code.ok
        then (do
          d ← base_db t
          store handle (db (record { db = d; txn_db = t; is_transactional = true }))
          finish_open handle s)
        else finish_open handle s

  unfoldable pub rocksdb_is_transactional : Ptr → M S ℕ
  rocksdb_is_transactional p =
      if p == null then pure 0 else do h ← load_db p; pure (to_int h.is_transactional)

  -- `db->db`, or null where the guard `!db || !db->db` of an operation finds one.
  unfoldable pub live_db : Ptr → M S (Option ℕ)
  live_db p = if p == null then pure none else do h ← load_db p; pure h.db

  unfoldable pub rocksdb_put : Ptr → Ptr → Bytes → Bytes → M S CStatus
  rocksdb_put p opts key value = do
    live ← live_db p
    elim live [
      | none ↦ null_argument "Database is null"
      | some d ↦ do
        o ← write_options_or_default opts
        s ← call S (S.put d o key value)
        make_status s
    ]

  -- The end of the functions that get: the value is copied out if the status is OK.
  unfoldable pub finish_get : Status → Bytes → M S GetResult
  finish_get s value =
      if is_code s Code.ok
      then (do
        copy ← malloc_copy value
        status ← make_status s
        pure (record { status = status; value_out = copy; value_len_out = length value }))
      else do
        status ← make_status s
        pure (record { status = status; value_out = null; value_len_out = 0 })

  -- A get on a null handle.
  unfoldable pub refuse_get : String → M S GetResult
  refuse_get text = do
    status ← null_argument text
    pure (record { status = status; value_out = null; value_len_out = 0 })

  unfoldable pub rocksdb_get : Ptr → Ptr → Bytes → M S GetResult
  rocksdb_get p opts key = do
    live ← live_db p
    elim live [
      | none ↦ refuse_get "Database is null"
      | some d ↦ do
        o ← read_options_or_default opts
        (s, value) ← call S (S.get d o key)
        finish_get s value
    ]

  unfoldable pub rocksdb_delete : Ptr → Ptr → Bytes → M S CStatus
  rocksdb_delete p opts key = do
    live ← live_db p
    elim live [
      | none ↦ null_argument "Database is null"
      | some d ↦ do o ← write_options_or_default opts; s ← call S (S.delete d o key); make_status s
    ]

  unfoldable pub rocksdb_key_may_exist : Ptr → Ptr → Bytes → M S ℕ
  rocksdb_key_may_exist p opts key = do
    live ← live_db p
    elim live [
      | none ↦ pure 0
      | some d ↦ do
        o ← read_options_or_default opts
        found ← call S (S.key_may_exist d o key)
        pure (to_int found)
    ]
