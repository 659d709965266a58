-- ===== src/Client/Store.antt =====
-- What RocksDB.swift promises of a database: a map from keys to values, and sequences of `put`,
-- `delete` and `get` on it.
pub mod Refinement
use rock_db_swift.Prelude.{
  ℕ, ◌≡◌, true, Option, none, some, List, [], ◌∷◌, Bytes, if◌then◌else◌, length,
}
use rock_db_swift.System.{System, Code}
use rock_db_swift.Memory.{M, pure, ◌>>=◌}
use rock_db_swift.Client.Error.{Throws, returned}
use rock_db_swift.Client.AccessOptions.{RocksDbReadOptions, RocksDbWriteOptions}
use rock_db_swift.Client.AccessOptions.Handles.{library_read_options, library_write_options}
use rock_db_swift.Client.Database.{RocksDb, put, get, delete, ◌>>?◌}
use rock_db_swift.Client.Database.RoundTrip.{IsStore}
use rock_db_swift.Client.Scan.{bytes_eq}

pub data Command : Type 0 where
  putting : Bytes → Bytes → Command
  deleting : Bytes → Command
  getting : Bytes → Command

-- The specification: a map, which every command answers at once.
abbrev pub Map : Type 0
Map = Bytes → Option Bytes

abbrev pub set : Bytes → Option Bytes → Map → Map
set k x m = λ j. if bytes_eq j k then x else m j

abbrev pub spec_after : Command → Map → Map
spec_after (putting x k) m = set k (some x) m
spec_after (deleting k) m = set k none m
spec_after (getting k) m = m

abbrev pub spec_answer : Command → Map → Option Bytes
spec_answer (putting x k) m = none
spec_answer (deleting k) m = none
spec_answer (getting k) m = m k

unfoldable pub spec_answers : List Command → Map → List (Throws (Option Bytes))
spec_answers [] m = []
spec_answers (c ∷ cs) m = returned (spec_answer c m) ∷ spec_answers cs (spec_after c m)

unfoldable pub spec_final : List Command → Map → Map
spec_final [] m = m
spec_final (c ∷ cs) m = spec_final cs (spec_after c m)

module _ {S : System} (r : RocksDb) (o : RocksDbReadOptions) (v : RocksDbWriteOptions) where
  -- The implementation: the methods of the class, one after the other, with what each gave.
  abbrev pub run_command : Command → M S (Throws (Option Bytes))
  run_command (putting x k) = put r x k v >>? λ _. pure (returned none)
  run_command (deleting k) = delete r k v >>? λ _. pure (returned none)
  run_command (getting k) = get r k o

  unfoldable pub run_commands : List Command → M S (List (Throws (Option Bytes)))
  run_commands [] = pure []
  run_commands (c ∷ cs) = do
    answer ← run_command c
    answers ← run_commands cs
    pure (answer ∷ answers)

module _ (S : System) (d : ℕ) (o : RocksDbReadOptions) (v : RocksDbWriteOptions) where
  -- The library's state after one call.
  abbrev pub state_after : Command → S.State → S.State
  state_after (putting x k) s = (S.put d (library_write_options S v) k x s).1
  state_after (deleting k) s = (S.delete d (library_write_options S v) k s).1
  state_after (getting k) s = (S.get d (library_read_options S o) k s).1

  unfoldable pub final_state : List Command → S.State → S.State
  final_state [] s = s
  final_state (c ∷ cs) s = final_state cs (state_after c s)

  -- The library accepts a write; the allocator grants the copy of what is read.
  abbrev pub Granted : Command → Map → S.State → Type 0
  Granted (putting x k) m s = (S.put d (library_write_options S v) k x s).0.code ≡ Code.ok
  Granted (deleting k) m s = (S.delete d (library_write_options S v) k s).0.code ≡ Code.ok
  Granted (getting k) m s =
      (x : Bytes) → m k ≡ some x → S.grants (state_after (getting k) s) (length x) ≡ true

  -- So it is along the whole sequence.
  unfoldable pub AllGranted : List Command → Map → S.State → Type 0
  AllGranted [] m s = Unit {0}
  AllGranted (c ∷ cs) m s = Granted c m s × AllGranted cs (spec_after c m) (state_after c s)
