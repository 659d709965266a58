-- ===== src/Tests/Idling.antt =====
-- An open database of the sample library that has no iterators, and threads that close it.
use rock_db_swift.Prelude.{
  ℕ, zero, suc, ◌≤◌, ◌≡◌, refl, sym, ap, ◌∙◌, Bool, true, false, none, some, Option, List, [], ◌∷◌,
  arith,
}
use rock_db_swift.Memory.{Ptr, Cell, db, DbHandle, World, update}
use rock_db_swift.Memory.Effects.{IsSound}
use rock_db_swift.Client.AccessOptions.{default_read_options, default_write_options}
use rock_db_swift.Client.Database.Closing.{open_handle}
use rock_db_swift.Client.Lifecycle.Quiet.{Tidy, tidy_open}
use rock_db_swift.Client.Locked.Threads.{Threads, enter, Reach, start, later}
use rock_db_swift.Client.Locked.Databases.{takes_lock-always, putting, getting, closing}
use rock_db_swift.Client.Locked.Life.{plain_class}
use rock_db_swift.Client.Locked.Life.Idle.{MakesNoIterators, Idle}
use rock_db_swift.Tests.Sample.{sample}
use rock_db_swift.Tests.Worlds
use rock_db_swift.Tests.Worlds.{database}
use rock_db_swift.Tests.Values.{key_one, ten}
use rock_db_swift.Tests.Schedules.{owner_lock}

pub sample-MakesNoIterators : MakesNoIterators sample
sample-MakesNoIterators = record {
  put = λ j d o k x s idle. idle;
  get = λ j d o k s idle. idle;
  delete = λ j d o k s idle. idle;
  key_may_exist = λ j d o k s idle. idle;
  flush = λ j d o s idle. idle;
  compact_range = λ j d o start_key end_key s idle. idle;
}

abbrev pub empty_heap : Ptr → Option (Cell sample)
empty_heap a = none

abbrev pub idle_world : World sample
idle_world = record {
  heap = update empty_heap 1 (some (db (open_handle false 0 none)));
  next = 2;
  engine = Worlds.start;
}

idle_world-IsSound : IsSound idle_world
idle_world-IsSound = record { positive = omega arith; fresh = λ a h. ground (arith, h) }

pub idle_world-Tidy : Tidy empty_heap database idle_world
idle_world-Tidy =
    tidy_open false 0 none refl idle_world-IsSound
      (record { ne_null = λ e. omega (arith, e); holds = refl }) refl refl refl

-- One thread puts a value and closes the database, the other reads.
abbrev pub closing_programs : ℕ → List (plain_class sample).Call
closing_programs zero = (putting ten key_one default_write_options, refl) ∷ (closing, refl) ∷ []
closing_programs (suc zero) = (getting key_one default_read_options, refl) ∷ []
closing_programs _ = []

pub closing_finite : (i : ℕ) → 2 ≤ i → closing_programs i ≡ []
closing_finite zero le = absurd (omega arith)
closing_finite (suc zero) le = absurd (omega arith)
closing_finite (suc (suc i)) le = refl

-- The first thread has entered its first method.
abbrev pub entered :
    (s : Threads (plain_class sample) owner_lock) × Reach
      (plain_class sample)
      owner_lock
      closing_programs
      database
      idle_world
      s
entered = (
  _,
  later start (
      enter 0 (putting ten key_one default_write_options, refl) ((closing, refl) ∷ []) refl
        (takes_lock-always (putting ten key_one default_write_options)) refl),
)

-- The id of the database that a cell owns.
abbrev owned_by : DbHandle → ℕ
owned_by h = elim h.txn_db [ some d ↦ d | none ↦ elim h.db [ some d ↦ d | none ↦ 1 ] ]

abbrev owned : Option (Cell sample) → ℕ
owned (some (db h)) = owned_by h
owned c = 1

owned-open_handle : (b : Bool) (d : ℕ) (m : Option ℕ) → owned (some (db (open_handle b d m))) ≡ d
owned-open_handle false d m = refl
owned-open_handle true d m = refl

abbrev pointed : Option Ptr → Ptr
pointed none = 0
pointed (some p) = p

pub idle_world-Idle : Idle database idle_world
idle_world-Idle p transactional d base e at =
    let held = ap idle_world.heap (ap pointed e) ∙ at.holds in
    let zero_is : 0 ≡ d = ap owned held ∙ owned-open_handle transactional d base in
    ap (λ j. sample.has_iterators j idle_world.engine) (sym zero_is)
