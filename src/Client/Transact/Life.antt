-- ===== src/Client/Transact/Life.antt =====
-- The life of a `RocksDBTransaction` object: its methods as steps between states, which are the object
-- and the world, and what every step preserves.
pub mod Tidy
use rock_db_swift.Prelude.{
  ℕ, ◌+◌, ◌≤◌, ◌≡◌, refl, sym, ◌∙◌, ap, inl, inr, Bool, true, false, Option, none, some, Bytes,
  arith,
}
use rock_db_swift.System.{System, Status}
use rock_db_swift.Memory.{Ptr, Cell, transaction, World, Run, ok, update}
use rock_db_swift.Memory.Effects.{
  IsSound, IsSound-later, Effect, Effect-pure, Effect-call, At, same_answer, same_world,
}
use rock_db_swift.Memory.Creations.{restored, IsSound-removed}
use rock_db_swift.Bridge.Transaction.{rocksdb_transaction_set_savepoint}
use rock_db_swift.Client.Error.{Throws, threw, invalid_argument}
use rock_db_swift.Client.AccessOptions.{RocksDbReadOptions}
use rock_db_swift.Client.Lifecycle.Quiet.{Quiet, quiet, Quiet-pure}
use rock_db_swift.Client.Transaction.{
  RocksDbTransaction, put, get, get_for_update, delete, commit, rollback, set_savepoint,
  rollback_to_savepoint, destroy, release,
}
use rock_db_swift.Client.Transaction.Commits.{
  live_transaction-At, committed_as, committed_as-cases, Effect-commit,
}
use rock_db_swift.Client.Transaction.Edits.{
  Effect-txn_put, Effect-txn_delete, Effect-txn_get, Effect-get_for_update,
  Effect-rollback_to_savepoint,
}
use rock_db_swift.Client.Transact.Outcomes.{object, rollback-At, destroy-At, release-At}

module _ {S : System} where
  pub data TxnStep : RocksDbTransaction → World S → RocksDbTransaction → World S → Type 0 where
    put_step :
        {t : RocksDbTransaction} {w v : World S} (value key : Bytes) {a : Throws (Unit {0})}
        → put t value key w ≡ ok a v
        → TxnStep t w t v
    delete_step :
        {t : RocksDbTransaction} {w v : World S} (key : Bytes) {a : Throws (Unit {0})}
        → delete t key w ≡ ok a v
        → TxnStep t w t v
    get_step :
        {t : RocksDbTransaction} {w v : World S} (key : Bytes) (o : RocksDbReadOptions)
        {a : Throws (Option Bytes)}
        → get t key o w ≡ ok a v
        → TxnStep t w t v
    get_for_update_step :
        {t : RocksDbTransaction} {w v : World S} (key : Bytes) (o : RocksDbReadOptions)
        {a : Throws (Option Bytes)}
        → get_for_update t key o w ≡ ok a v
        → TxnStep t w t v
    set_savepoint_step :
        {t : RocksDbTransaction} {w v : World S} {a : Unit {0}}
        → set_savepoint t w ≡ ok a v
        → TxnStep t w t v
    rollback_to_savepoint_step :
        {t : RocksDbTransaction} {w v : World S} {a : Throws (Unit {0})}
        → rollback_to_savepoint t w ≡ ok a v
        → TxnStep t w t v
    rollback_step :
        {t : RocksDbTransaction} {w v : World S} {a : Unit {0}}
        → rollback t w ≡ ok a v
        → TxnStep t w t v
    commit_step :
        {t : RocksDbTransaction} {w v : World S} {a : Throws (Unit {0}) × RocksDbTransaction}
        → commit t w ≡ ok a v
        → TxnStep t w a.1 v
    destroy_step :
        {t u : RocksDbTransaction} {w v : World S} → destroy t w ≡ ok u v → TxnStep t w u v
    release_step :
        {t u : RocksDbTransaction} {w v : World S} → release t w ≡ ok u v → TxnStep t w u v

  pub data TxnSteps : RocksDbTransaction → World S → RocksDbTransaction → World S → Type 0 where
    done : {t : RocksDbTransaction} {w : World S} → TxnSteps t w t w
    then_step :
        {t u s : RocksDbTransaction} {w v x : World S}
        → TxnSteps t w u v
        → TxnStep u v s x
        → TxnSteps t w s x

-- An object whose transaction has been destroyed.
abbrev pub destroyed : Bool → RocksDbTransaction
destroyed b = record { handle = none; committed = b }

-- The heap is `base` and the handle of the transaction, until it is destroyed.
pub data TxnTidy {S : System} (base : Ptr → Option (Cell S)) (t : RocksDbTransaction) (w : World S)
    : Type 0 where
  gone : (b : Bool) → t ≡ destroyed b → IsSound w → w.heap ≡ base → TxnTidy base t w
  held :
      {p : Ptr} {i : ℕ} (b : Bool)
      → t ≡ object p b
      → IsSound w
      → At w p (transaction (some i))
      → base p ≡ none
      → w.heap ≡ update base p (some (transaction (some i)))
      → TxnTidy base t w
