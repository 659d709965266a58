-- ===== src/Tests/Witnesses/Threads.antt =====
-- The theorems on threads at concrete inputs.
use rock_db_swift.Prelude.{ℕ, none, [], ◌≡◌, refl, false}
use rock_db_swift.Client.AccessOptions.{default_read_options, default_write_options}
use rock_db_swift.Client.Store.{AllGranted, spec_answers, spec_final}
use rock_db_swift.Client.Store.Refinement.{Holds}
use rock_db_swift.Client.Locked.Threads.{Serial, Threads, Reach, unwound, pending}
use rock_db_swift.Client.Locked.Stores.{commands, answers}
use rock_db_swift.Client.Locked.Stores.Agreement.{Reach-spec_answers}
use rock_db_swift.Client.Transact.Life.{TxnSteps, TxnTidy, held}
use rock_db_swift.Client.Locked.Batches.{batch_class}
use rock_db_swift.Client.Locked.Members.{batches, Reach-members}
use rock_db_swift.Client.Locked.Transactions.Life.{Reach-TxnTidy}
use rock_db_swift.Tests.Sharing.{
  empty_batch, filling, filled_twice, filled_twice_ended, shared, shared_ended,
}
use rock_db_swift.Tests.Values.{live, transaction_world}
use rock_db_swift.Tests.Worlds.{world-At}
use rock_db_swift.Client.Locked.Life.{plain_class}
use rock_db_swift.Client.Locked.Life.Progress.{Reach-finished}
use rock_db_swift.Client.Lifecycle.{Steps}
use rock_db_swift.Client.Lifecycle.Quiet.{Tidy}
use rock_db_swift.Tests.Idling.{
  sample-MakesNoIterators, idle_world-Idle, empty_heap, idle_world, idle_world-Tidy,
  closing_programs, closing_finite, entered,
}
use rock_db_swift.Tests.Lives.{sample-IsOpener}
use rock_db_swift.Tests.Sample.{sample}
use rock_db_swift.Tests.Worlds.{world-IsSound, open_world, open_world-Live, database, sample_store}
use rock_db_swift.Tests.Schedules.{
  sample_class, programs, run, turns, run_ended, owner_lock, owner_lock-IsRecursive,
}

Reach-spec_answers_example :
    (answers sample default_read_options default_write_options (run turns).0.log
      ≡ spec_answers
          (commands sample default_read_options default_write_options (run turns).0.log)
          (λ k. none))
    × Holds default_read_options
        (sample_store _)
        (spec_final
          (commands sample default_read_options default_write_options (run turns).0.log)
          (λ k. none))
        (run turns).0.world.engine
    × ((run turns).0.world.heap ≡ open_world.heap)
    × ((run turns).0.object ≡ database)
    × ((i : ℕ)
        → programs i
          ≡ unwound sample_class i
              (run turns).0.log
              (pending sample_class ((run turns).0.places i)))
unfolding run AllGranted commands
Reach-spec_answers_example =
    Reach-spec_answers default_read_options default_write_options (sample_store _)
      owner_lock-IsRecursive (world-IsSound _) open_world-Live database refl (run turns).1 run_ended
      (λ k. none) (λ k. refl) (refl, ((λ x e. refl), tt))

Reach-finished_example :
    (t : Threads (plain_class sample) owner_lock) × Reach
      (plain_class sample)
      owner_lock
      closing_programs
      database
      idle_world
      t
    × Steps database idle_world t.object t.world
    × Tidy empty_heap t.object t.world
    × ((i : ℕ) → closing_programs i ≡ unwound (plain_class sample) i t.log [])
Reach-finished_example =
    Reach-finished sample-IsOpener sample-MakesNoIterators idle_world-Tidy idle_world-Idle
      owner_lock-IsRecursive 2 closing_finite entered.1

Reach-TxnTidy_example :
    TxnSteps live transaction_world shared.0.object shared.0.world
    × TxnTidy (λ a. none) shared.0.object shared.0.world
Reach-TxnTidy_example =
    Reach-TxnTidy owner_lock-IsRecursive (held false refl (world-IsSound _) (world-At _) refl refl)
      shared.1 shared_ended

Reach-members_example :
    Serial
      (batch_class sample)
      (record { handle = 2 })
      empty_batch
      filled_twice.0.log
      filled_twice.0.object
      filled_twice.0.world
    × ((i : ℕ)
        → filling i
          ≡ unwound
              (batch_class sample)
              i
              filled_twice.0.log
              (pending (batch_class sample) (filled_twice.0.places i)))
Reach-members_example =
    Reach-members owner_lock-IsRecursive batches filled_twice.1 filled_twice_ended
