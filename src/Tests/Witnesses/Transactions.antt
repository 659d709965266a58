-- ===== src/Tests/Witnesses/Transactions.antt =====
-- The theorems on transactions and batches at concrete inputs.
use rock_db_swift.Prelude.{arith, true, false, none, some, [], ◌∷◌, refl}
use rock_db_swift.Memory.{transaction}
use rock_db_swift.Memory.Effects.{Effect}
use rock_db_swift.Memory.Creations.{Created}
use rock_db_swift.Client.Error.{returned, threw, transaction_conflict}
use rock_db_swift.Client.AccessOptions.{default_read_options, default_write_options}
use rock_db_swift.Client.Transaction.Edits.{Effect-txn_get}
use rock_db_swift.Client.Batch.{write_batch, with_batch}
use rock_db_swift.Client.Batch.Written.{Effect-write_batch, Effect-with_batch}
use rock_db_swift.Client.Transaction.{RocksDbTransaction, commit}
use rock_db_swift.Client.Transaction.Commits.{Effect-commit}
use rock_db_swift.Client.Transact.{conclude}
use rock_db_swift.Client.Transaction.Beginning.{Created-begin_transaction}
use rock_db_swift.Client.Transact
use rock_db_swift.Client.Transact.Whole.{Effect-transaction}
use rock_db_swift.Client.Transaction
use rock_db_swift.Tests.Worlds.{
  batch_world, batch_world-IsSound, batch_world-Live, batch_world-At, start, world-IsSound,
  world-At, open_world, open_world-Live, database,
}
use rock_db_swift.Tests.Values.{
  key_one, filled, put_one, put_one_runs, transaction_world, answer_seven, transactional_world,
  answer_seven_runs,
}

Effect-with_batch_example :
    Effect open_world
      (returned tt)
      (record start { entries = filled })
      (with_batch database default_write_options put_one open_world)
Effect-with_batch_example =
    Effect-with_batch (world-IsSound _) open_world-Live database default_write_options put_one
      (returned tt) filled 3 start refl (omega arith) put_one_runs

Effect-commit_example :
    Effect transaction_world
      (threw (transaction_conflict "text"), record { handle = some 1; committed = false })
      start
      (commit (record { handle = some 1; committed = false }) transaction_world)
Effect-commit_example = Effect-commit (world-IsSound _) (world-At _) false

Created-begin_transaction_example :
    Created transactional_world
      (λ q. returned (record { handle = some q; committed = false }))
      (transaction (some 0))
      start
      (Transaction.begin_transaction
        (record { handle = some 1; path = "/db"; is_transactional = true })
        default_write_options
        transactional_world)
Created-begin_transaction_example =
    Created-begin_transaction (world-IsSound _) (world-At _) "/db" default_write_options

Effect-transaction_example : Effect transactional_world (returned 7) start (
    Transact.transaction
      (record { handle = some 1; path = "/db"; is_transactional = true })
      default_write_options
      answer_seven
      transactional_world)
Effect-transaction_example =
    Effect-transaction (world-IsSound _) (world-At _) {t = start} "/db" default_write_options
      answer_seven (returned 7) refl answer_seven_runs

Effect-write_batch_example :
    Effect batch_world
      (returned tt)
      (record start { entries = (1 ∷ [], 10 ∷ []) ∷ [] })
      (write_batch database (record { handle = 2 }) default_write_options batch_world)
Effect-write_batch_example =
    Effect-write_batch batch_world-IsSound batch_world-Live database (record { handle = 2 })
      ((1 ∷ [], 10 ∷ []) ∷ []) default_write_options refl batch_world-At

Effect-txn_get_example : Effect transaction_world (returned none) start (
    Transaction.get
      (record { handle = some 1; committed = false })
      key_one
      default_read_options
      transaction_world)
Effect-txn_get_example =
    Effect-txn_get (world-IsSound _) (world-At _) false key_one default_read_options
