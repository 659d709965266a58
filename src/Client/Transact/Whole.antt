-- ===== src/Client/Transact/Whole.antt =====
-- `transaction` of RocksDB.swift from its call to its return.
use rock_db_swift.Prelude.{ℕ, String, ◌≡◌, refl, true, false, some, Option}
use rock_db_swift.System.{System}
use rock_db_swift.Memory.{Ptr, db, transaction, World, ok, M}
use rock_db_swift.Memory.Effects.{IsSound, Effect, At}
use rock_db_swift.Memory.Creations.{added, added-IsSound, added-At, Effect-removed}
use rock_db_swift.Client.Error.{Throws}
use rock_db_swift.Client.AccessOptions.{RocksDbWriteOptions}
use rock_db_swift.Client.AccessOptions.Handles.{library_write_options}
use rock_db_swift.Client.Database.Closing.{open_handle}
use rock_db_swift.Client.Transaction.{RocksDbTransaction}
use rock_db_swift.Client.Transaction.Beginning.{Created-begin_transaction}
use rock_db_swift.Client.Transact.{conclude}
use rock_db_swift.Client.Transact
use rock_db_swift.Client.Transact.Outcomes.{object, outcome, Effect-conclude}

module _ {S : System} {w : World S} (sound : IsSound w) {p : Ptr} {d : ℕ} {base : Option ℕ}
    (at : At w p (db (open_handle true d base))) {i : ℕ} {s t : S.State} {T : Type 0} where
  -- On an open transactional database whose library begins a transaction, for a closure that
  -- answers, acts on the library's state only and leaves the transaction object as it was: if the
  -- closure returns, `transaction` commits and returns its value; if the closure or the commit
  -- fails, it throws that error and the library's transaction is rolled back (once in `catch`,
  -- once in `deinit`). In every case the library's transaction is deleted and the heap is left as
  -- it was.
  pub Effect-transaction :
      (path : String) (o : RocksDbWriteOptions)
      (operation : RocksDbTransaction → M S (Throws T × RocksDbTransaction)) (answer : Throws T)
      → S.begin_transaction d (library_write_options S o) w.engine ≡ (some i, s)
      → ((q : Ptr) (v : World S)
          → At v q (transaction (some i))
          → v.engine ≡ s
          → operation (object q false) v ≡ ok (answer, object q false) (record v { engine = t }))
      → let done = outcome S i answer t in
        Effect w done.0 (S.delete_txn i done.1) (
          Transact.transaction
            (record { handle = some p; path = path; is_transactional = true })
            o
            operation
            w)
  unfolding Transact.transaction
  Effect-transaction path o operation answer begun runs =
      let made = Created-begin_transaction sound at path o in
      let held = added sound made.ptr made.after (transaction (some i)) t made.fresh made.room in
      rw (made.runs, begun)
        (Effect-removed sound made.ptr made.after (transaction (some i)) t made.fresh made.room (
          Effect-conclude {w = held}
            (added-At sound made.ptr made.after (transaction (some i)) t made.fresh made.room)
            operation answer
            (added-IsSound sound made.ptr made.after (transaction (some i)) t made.fresh made.room)
            (runs made.ptr
              (added sound made.ptr made.after (transaction (some i)) s made.fresh made.room)
              (added-At sound made.ptr made.after (transaction (some i)) s made.fresh made.room)
              refl)))
