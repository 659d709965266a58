-- ===== src/Tests/Lives.antt =====
-- A run of the sample library: a database is opened, written to and closed.
use rock_db_swift.Prelude.{ℕ, ◌≡◌, refl, true, false, Bool, none, some, arith}
use rock_db_swift.System.{Code}
use rock_db_swift.Memory.{Cell, db, World, update}
use rock_db_swift.Memory.Effects.{Effect, IsSound, At}
use rock_db_swift.Memory.Creations.{Created, added, added-IsSound, added-At}
use rock_db_swift.Bridge.Status.{is_code}
use rock_db_swift.Client.Error.{returned}
use rock_db_swift.Client.Options.{default_options}
use rock_db_swift.Client.AccessOptions.{sync_write_options}
use rock_db_swift.Client.Closed.{closed}
use rock_db_swift.Client.Database.{RocksDb, open_at, put}
use rock_db_swift.Client.Database.Opening
use rock_db_swift.Client.Database.Opening.{Created-open_at}
use rock_db_swift.Client.Database.Closing.{open_handle, close-open}
use rock_db_swift.Client.Database.Writes.{Effect-put}
use rock_db_swift.Client.Lifecycle.{Steps, done, then_step, open_step, put_step, close_step}
use rock_db_swift.Client.Lifecycle.Openings.{IsOpener}
use rock_db_swift.Tests.Sample.{sample, stored, State}
use rock_db_swift.Tests.Worlds.{start, world-IsSound, open_world}
use rock_db_swift.Tests.Values.{key_one, ten, put_state}

stored-stores :
    (b : Bool) (s : State)
    → is_code (stored b s).0.0 Code.ok ≡ true
    → (d : ℕ) × ((stored b s).0.1 ≡ some d)
unfolding is_code
stored-stores true s h = (0, refl)
stored-stores false s h = absurd (ground (arith, h))

stored-fails :
    (b : Bool) (s : State) → is_code (stored b s).0.0 Code.ok ≡ false → (stored b s).0.1 ≡ none
unfolding is_code
stored-fails true s h = absurd (ground (arith, h))
stored-fails false s h = refl

pub sample-IsOpener : IsOpener sample
unfolding is_code
sample-IsOpener = record {
  open_stores = λ o path s. stored-stores o.db.create_if_missing s;
  open_fails = λ o path s. stored-fails o.db.create_if_missing s;
  read_only_stores = λ o path b s h. (0, refl);
  read_only_fails = λ o path b s h. absurd (ground (arith, h));
  txn_stores =
      λ o path s h. let (d, e) = stored-stores o.db.create_if_missing s h in (d, d, e, refl);
  txn_fails = λ o path s. stored-fails o.db.create_if_missing s;
}

abbrev handle_cell : Cell sample
handle_cell = db (open_handle false 0 none)

abbrev pub opening :
    Created open_world
      (λ p. returned (Opening.database "/db" false p))
      handle_cell
      start
      (open_at "/db" default_options open_world)
unfolding is_code
opening = Created-open_at (world-IsSound _) "/db" default_options refl refl

abbrev pub opened : World sample
opened =
    added (world-IsSound handle_cell) opening.ptr opening.after handle_cell start opening.fresh
      opening.room

abbrev pub object : RocksDb
object = Opening.database "/db" false opening.ptr

pub opened-IsSound : IsSound opened
opened-IsSound =
    added-IsSound (world-IsSound handle_cell) opening.ptr opening.after handle_cell start
      opening.fresh opening.room

pub opened-At : At opened opening.ptr handle_cell
opened-At =
    added-At (world-IsSound handle_cell) opening.ptr opening.after handle_cell start opening.fresh
      opening.room

abbrev pub writing :
    Effect opened (returned tt) put_state (put object ten key_one sync_write_options opened)
writing =
    Effect-put opened-IsSound
      (record { handle = open_handle false 0 none; at = opened-At; live = refl }) object ten key_one
      sync_write_options refl

abbrev pub closed_world : World sample
closed_world = record opened {
  heap = update opened.heap opening.ptr none;
  next = writing.after;
  engine = put_state;
}

pub life : Steps (closed "/db" false) open_world (record object { handle = none }) closed_world
life =
    then_step
      (then_step (then_step done (open_step "/db" default_options refl opening.runs))
        (put_step ten key_one sync_write_options writing.runs))
      (close_step (
        close-open object false 0 none
          (record { ne_null = opened-At.ne_null; holds = opened-At.holds }) refl))
