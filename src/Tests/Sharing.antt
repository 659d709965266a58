-- ===== src/Tests/Sharing.antt =====
-- A transaction and a batch of the sample library that two threads share.
use rock_db_swift.Prelude.{ℕ, zero, suc, ◌≤◌, ◌≡◌, refl, List, [], ◌∷◌, map, arith}
use rock_db_swift.Memory.{batch, World, load, store, load_batch, load_transaction}
use rock_db_swift.Memory.Effects.{with_cell}
use rock_db_swift.Bridge.Batch.{rocksdb_batch_put, modify_batch}
use rock_db_swift.Bridge.Transaction.{
  live_transaction, rocksdb_transaction_rollback, rocksdb_transaction_set_savepoint,
}
use rock_db_swift.Client.Locked.{does_with, guarded, ◌>>=◌}
use rock_db_swift.Client.Locked.Batches
use rock_db_swift.Client.Locked.Batches.{batch_class}
use rock_db_swift.Tests.Worlds.{open_world}
use rock_db_swift.Client.Locked.Serialised.{Run-cases, Reach-Inv}
use rock_db_swift.Client.Locked.Serialised.Finished.{beyond}
use rock_db_swift.Client.Locked.Serialised.Answered.{depth-pending}
use rock_db_swift.Client.Locked.Threads.{Class, Threads, Reach, start, depth}
use rock_db_swift.Client.Locked.Transactions.{setting_savepoint, rolling_back, body}
use rock_db_swift.Client.Locked.Transactions.Life.{plain_transaction_class}
use rock_db_swift.Tests.Sample.{sample}
use rock_db_swift.Tests.Values.{key_one, ten, live, transaction_world}
use rock_db_swift.Tests.Schedules.{owner_lock, owner_lock-IsRecursive, scheduled}

abbrev pub shared_class : Class sample
shared_class = plain_transaction_class sample

abbrev pub sharing : ℕ → List shared_class.Call
sharing zero = (setting_savepoint, refl) ∷ []
sharing (suc zero) = (rolling_back, refl) ∷ []
sharing _ = []

sharing_finite : (i : ℕ) → 2 ≤ i → sharing i ≡ []
sharing_finite zero le = absurd (omega arith)
sharing_finite (suc zero) le = absurd (omega arith)
sharing_finite (suc (suc i)) le = refl

unfoldable pub shared :
    (s : Threads shared_class owner_lock) × Reach shared_class owner_lock sharing live
      transaction_world s
unfolding scheduled Run-cases body guarded ◌>>=◌ rocksdb_transaction_set_savepoint
    rocksdb_transaction_rollback live_transaction load_transaction load
shared = scheduled (0 ∷ 1 ∷ 0 ∷ 0 ∷ 0 ∷ 1 ∷ 1 ∷ 1 ∷ 1 ∷ []) _ start

pub shared_ended : (i : ℕ) → depth shared_class (shared.0.places i) ≡ 0
unfolding shared
shared_ended zero = refl
shared_ended (suc zero) = refl
shared_ended (suc (suc i)) = depth-pending (shared.0.places (suc (suc i))) (
    beyond live transaction_world owner_lock-IsRecursive 2 sharing_finite
      (Reach-Inv owner_lock-IsRecursive shared.1) (suc (suc i)) (omega arith))

-- Two threads put an entry into one batch.
abbrev pub filling : ℕ → List (batch_class sample).Call
filling zero = Batches.putting ten key_one ∷ []
filling (suc zero) = Batches.putting key_one ten ∷ []
filling _ = []

filling_finite : (i : ℕ) → 2 ≤ i → filling i ≡ []
filling_finite zero le = absurd (omega arith)
filling_finite (suc zero) le = absurd (omega arith)
filling_finite (suc (suc i)) le = refl

abbrev pub empty_batch : World sample
empty_batch = with_cell open_world (batch [])

unfoldable pub filled_twice :
    (s : Threads (batch_class sample) owner_lock) × Reach
      (batch_class sample)
      owner_lock
      filling
      (record { handle = 2 })
      empty_batch
      s
unfolding scheduled Run-cases Batches.body does_with rocksdb_batch_put modify_batch load_batch load
    store
filled_twice = scheduled (0 ∷ 1 ∷ 0 ∷ 1 ∷ 0 ∷ 0 ∷ 1 ∷ 1 ∷ 1 ∷ 1 ∷ []) _ start

pub filled_twice_ended : (i : ℕ) → depth (batch_class sample) (filled_twice.0.places i) ≡ 0
unfolding filled_twice
filled_twice_ended zero = refl
filled_twice_ended (suc zero) = refl
filled_twice_ended (suc (suc i)) = depth-pending (filled_twice.0.places (suc (suc i))) (
    beyond (record { handle = 2 }) empty_batch owner_lock-IsRecursive 2 filling_finite
      (Reach-Inv owner_lock-IsRecursive filled_twice.1) (suc (suc i)) (omega arith))

filled_twice_log : map (λ e. e.thread) filled_twice.0.log ≡ 1 ∷ 0 ∷ []
unfolding filled_twice
filled_twice_log = refl
