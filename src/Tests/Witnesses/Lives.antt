-- ===== src/Tests/Witnesses/Lives.antt =====
-- The theorems on sequences of operations at concrete inputs.
use rock_db_swift.Prelude.{none, some, [], ◌∷◌, ◌≡◌, refl, List}
use rock_db_swift.Memory.Effects.{Effect}
use rock_db_swift.Client.Error.{returned}
use rock_db_swift.Client.AccessOptions.{default_read_options, default_write_options}
use rock_db_swift.Client.Lifecycle.Quiet.{Tidy, tidy_closed}
use rock_db_swift.Client.Lifecycle.Tidy.{Tidy-Steps}
use rock_db_swift.Client.Lifecycle.Reached.{IsReady, Steps-IsReady, Steps-no_leak}
use rock_db_swift.Client.Store.{
  Command, putting, deleting, getting, run_commands, spec_answers, spec_final, final_state,
  AllGranted,
}
use rock_db_swift.Client.Store.Refinement.{Holds, run_commands-spec_answers}
use rock_db_swift.Client.Scan.{bytes_eq}
use rock_db_swift.Memory.{World, transaction, update}
use rock_db_swift.Client.Database
use rock_db_swift.Lite
use rock_db_swift.Lite.Agreement.{Same, lite-agrees}
use rock_db_swift.Client.Transaction
use rock_db_swift.Client.Transaction.Edits.{Effect-txn_put}
use rock_db_swift.Client.Transact.Outcomes.{destroy-At}
use rock_db_swift.Client.Transact.Life.{
  TxnSteps, TxnTidy, held, destroyed, done, then_step, put_step, destroy_step,
}
use rock_db_swift.Client.Transact.Life.Tidy.{TxnTidy-TxnSteps}
use rock_db_swift.Tests.Worlds.{world-At}
use rock_db_swift.Prelude.{false}
use rock_db_swift.Tests.Sample.{sample, assign}
use rock_db_swift.Tests.Worlds.{world-IsSound, open_world, open_world-Live, database, sample_store}
use rock_db_swift.Tests.Values.{key_one, ten, put_state, live, transaction_world}
use rock_db_swift.Tests.Lives.{object, closed_world, life, sample-IsOpener}

Tidy-Steps_example : Tidy open_world.heap (record object { handle = none }) closed_world
Tidy-Steps_example = Tidy-Steps sample-IsOpener (tidy_closed refl (world-IsSound _) refl) life

Steps-IsReady_example : IsReady (record object { handle = none }) closed_world
Steps-IsReady_example = Steps-IsReady sample-IsOpener (world-IsSound _) refl life

Steps-no_leak_example : closed_world.heap ≡ open_world.heap
Steps-no_leak_example = Steps-no_leak sample-IsOpener (world-IsSound _) refl life refl

abbrev commands : List Command
commands = putting ten key_one ∷ getting key_one ∷ deleting key_one ∷ getting key_one ∷ []

run_commands-spec_answers_example :
    Effect open_world
      (returned none ∷ returned (some ten) ∷ returned none ∷ returned none ∷ [])
      (assign key_one none put_state)
      (run_commands database default_read_options default_write_options commands open_world)
    × Holds default_read_options
        (sample_store _)
        (spec_final commands (λ k. none))
        (assign key_one none put_state)
unfolding spec_answers final_state AllGranted bytes_eq
run_commands-spec_answers_example =
    run_commands-spec_answers default_read_options default_write_options (sample_store _)
      (world-IsSound _) open_world-Live database refl commands (λ k. none) (λ k. refl)
      (refl, ((λ x e. refl), (refl, ((λ x e. refl), tt))))

abbrev written :
    Effect transaction_world
      (returned tt)
      put_state
      (Transaction.put live ten key_one transaction_world)
written = Effect-txn_put (world-IsSound _) (world-At _) false ten key_one

abbrev ended_world : World sample
ended_world = record {
  heap = update transaction_world.heap 1 none;
  next = written.after;
  engine = put_state;
}

transaction_life : TxnSteps live transaction_world (destroyed false) ended_world
transaction_life = then_step (then_step done (put_step ten key_one written.runs)) (
    destroy_step (
      destroy-At {w = record transaction_world { next = written.after; engine = put_state }}
        (record { ne_null = (world-At (transaction (some 1))).ne_null; holds = refl }) false))

TxnTidy-TxnSteps_example : TxnTidy (λ a. none) (destroyed false) ended_world
TxnTidy-TxnSteps_example =
    TxnTidy-TxnSteps (held false refl (world-IsSound _) (world-At _) refl refl) transaction_life

lite-agrees_example :
    Same open_world
      (Database.put database ten key_one default_write_options open_world)
      (Lite.put (record { handle = some 1; path = "/db" }) ten key_one open_world)
    × Same open_world
        (Database.delete database key_one default_write_options open_world)
        (Lite.delete (record { handle = some 1; path = "/db" }) key_one open_world)
    × Same open_world
        (Database.get database key_one default_read_options open_world)
        (Lite.get (record { handle = some 1; path = "/db" }) key_one open_world)
lite-agrees_example = lite-agrees (world-IsSound _) open_world-Live database refl "/db" ten key_one
