-- ===== src/Tests/Values.antt =====
-- The closures and values that the runs of the tests use.
use rock_db_swift.Prelude.{ℕ, Bool, true, false, none, some, List, [], ◌∷◌, Bytes, ◌≡◌, ◌≢◌, arith}
use rock_db_swift.Memory.{
  Ptr, ok, load, load_batch, db, iterator, transaction, batch, World, M, pure, ◌>>◌,
}
use rock_db_swift.Memory.Effects.{At, with_cell, store-fresh}
use rock_db_swift.Bridge.Batch.{rocksdb_batch_put, modify_batch}
use rock_db_swift.Client.Error.{Throws, returned}
use rock_db_swift.Client.Options.{RocksDbOptions, default_options}
use rock_db_swift.Client.Database.Closing.{open_handle}
use rock_db_swift.Client.Batch.{RocksDbBatch, write_batch, with_batch}
use rock_db_swift.Client.Batch
use rock_db_swift.Client.Iterator.{Entry}
use rock_db_swift.Client.Scan.Walk.{Spares}
use rock_db_swift.Client.Transaction.{RocksDbTransaction}
use rock_db_swift.Tests.Sample.{State, sample, assign}
use rock_db_swift.Tests.Worlds.{start, world, world-IsSound, open_world, sample_iterator}

abbrev pub key_one : Bytes
key_one = 1 ∷ []

abbrev pub ten : Bytes
ten = 10 ∷ []

abbrev pub put_state : State
put_state = assign key_one (some ten) start

pub ten_ne_one : ten ≢ key_one
ten_ne_one e = ground (arith, e)

-- The library refuses to open where nothing is to be created.
abbrev pub existing_only : RocksDbOptions
existing_only = record default_options { create_if_missing = false }

abbrev pub filled : List Entry
filled = (key_one, ten) ∷ []

-- A closure that puts one entry.
abbrev pub put_one : RocksDbBatch → M sample (Throws (Unit {0}))
put_one b = do Batch.put b ten key_one; pure (returned tt)

pub put_one_runs :
    put_one (record { handle = 2 }) (with_cell open_world (batch []))
    ≡ ok (returned tt) (with_cell open_world (batch filled))
unfolding Batch.put rocksdb_batch_put modify_batch load_batch load
put_one_runs =
    rw (store-fresh (world-IsSound (db (open_handle false 0 none))) (batch []) (batch filled))

abbrev pub iterator_world : World sample
iterator_world = world (iterator (some 0))

-- A closure that accepts every entry and does nothing.
abbrev pub go_on : Bytes → Bytes → M sample (Throws Bool)
go_on k x = pure (returned true)

pub go_on-Spares : Spares sample_iterator 1 go_on
go_on-Spares es k x w st = st

abbrev pub transaction_world : World sample
transaction_world = world (transaction (some 1))

-- A closure that only answers.
abbrev pub answer_seven : RocksDbTransaction → M sample (Throws ℕ × RocksDbTransaction)
answer_seven t = pure (returned 7, t)

-- A closure that accepts every entry and does nothing, as a step of the library's state.
abbrev pub accept : Bytes → Bytes → State → Throws Bool × State
accept k x s = (returned true, s)

abbrev pub transactional_world : World sample
transactional_world = world (db (open_handle true 1 none))

pub answer_seven_runs :
    (q : Ptr) (v : World sample)
    → At v q (transaction (some 0))
    → v.engine ≡ start
    → answer_seven (record { handle = some q; committed = false }) v
      ≡ ok (returned 7, record { handle = some q; committed = false }) (record v { engine = start })
answer_seven_runs q v at e = rw e

abbrev pub live : RocksDbTransaction
live = record { handle = some 1; committed = false }

-- A key that the sample library refuses.
abbrev pub long_key : Bytes
long_key = 1 ∷ 2 ∷ 3 ∷ 4 ∷ 5 ∷ 6 ∷ 7 ∷ 8 ∷ 9 ∷ []
