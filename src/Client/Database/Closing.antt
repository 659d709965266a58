-- ===== src/Client/Database/Closing.antt =====
-- `close` of RocksDB.swift, with `rocksdb_close` and the destructor behind it.
use rock_db_swift.Prelude.{
  ℕ, ◌≡◌, Bool, true, false, Option, none, some, if◌then◌else◌, Bool-cases, inl, inr,
}
use rock_db_swift.System.{System}
use rock_db_swift.Memory.{Ptr, db, DbHandle, World, ok, fault, precondition, update}
use rock_db_swift.Memory.Effects.{At, not_null, free-owned}
use rock_db_swift.Bridge.Database.{
  rocksdb_close, destruct, delete_library_db, delete_library_txn_db,
}
use rock_db_swift.Bridge.Database.Live.{load_db-At}
use rock_db_swift.Client.Database.{RocksDb, close}

-- The handle of a database `d` that was opened with or without transactions.
abbrev pub open_handle : Bool → ℕ → Option ℕ → DbHandle
open_handle false d base = record { db = some d; txn_db = none; is_transactional = false }
open_handle true d base = record { db = base; txn_db = some d; is_transactional = true }

-- The library's deletion of the database that a handle owns.
abbrev pub deleted : (S : System) → Bool → ℕ → S.State → S.State
deleted S transactional d s = if transactional then S.delete_txn_db d s else S.delete_db d s

module _ {S : System} {w : World S} {p : Ptr} where
  -- Closing an open database, with or without transactions, deletes the library's database of the
  -- matching kind, frees the handle and clears the object; while iterators of the database are
  -- left it is a call that the library forbids.
  pub close-open :
      (r : RocksDb) (transactional : Bool) (d : ℕ) (base : Option ℕ)
      → At w p (db (open_handle transactional d base))
      → r.handle ≡ some p
      → close r w ≡ (
          if S.has_iterators d w.engine
          then fault precondition
          else ok
              (record r { handle = none })
              (record w {
                heap = update w.heap p none;
                engine = deleted S transactional d w.engine;
              }))
  unfolding close rocksdb_close destruct delete_library_db delete_library_txn_db
  close-open r false d base at e = elim (Bool-cases (S.has_iterators d w.engine)) [
    | inl used ↦ rw (e, not_null at, load_db-At at, used)
    | inr idle ↦
        rw (e, not_null at, load_db-At at, idle)
          (rw (
            free-owned p (db (open_handle false d base))
              (record w { engine = deleted S false d w.engine }) at.ne_null at.holds))
  ]
  close-open r true d base at e = elim (Bool-cases (S.has_iterators d w.engine)) [
    | inl used ↦ rw (e, not_null at, load_db-At at, used)
    | inr idle ↦
        rw (e, not_null at, load_db-At at, idle)
          (rw (
            free-owned p (db (open_handle true d base))
              (record w { engine = deleted S true d w.engine }) at.ne_null at.holds))
  ]
