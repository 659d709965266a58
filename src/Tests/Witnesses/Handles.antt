-- ===== src/Tests/Witnesses/Handles.antt =====
-- The theorems on options, errors, closed databases and the small wrapper at concrete inputs.
use rock_db_swift.Prelude.{false, none, some, ◌≡◌, refl}
use rock_db_swift.Prelude.Int.{ℤ}
use rock_db_swift.System.{Code}
use rock_db_swift.Memory.{fault, trap, ◌>>=◌}
use rock_db_swift.Memory.Effects.{Effect}
use rock_db_swift.Bridge.Status.{make_status, status_value, error_code, is_code}
use rock_db_swift.Client.Error.{threw, check, not_found}
use rock_db_swift.Client.Error.Reports.{check-make_status, status_value-error_code}
use rock_db_swift.Client.Options.{create_handle, default_options}
use rock_db_swift.Client.Options.Handles.{create_handle_lem}
use rock_db_swift.Client.AccessOptions.{default_read_options, default_write_options}
use rock_db_swift.Client.Closed.{closed, Refusals, closed_refuses}
use rock_db_swift.Tests.Sample.{answer}
use rock_db_swift.Tests.Worlds.{start, world-IsSound, open_world}
use rock_db_swift.Tests.Values.{key_one, ten, go_on}

check-make_status_example :
    Effect open_world
      (threw not_found)
      start
      ((make_status (answer Code.not_found) >>= check) open_world)
check-make_status_example = check-make_status open_world (world-IsSound _) (answer Code.not_found)

status_value-error_code_example : status_value (error_code (answer Code.column_family_dropped)) ≡ 5
unfolding is_code
status_value-error_code_example = status_value-error_code (answer Code.column_family_dropped) refl

create_handle_example :
    create_handle (record default_options { max_open_files = ℤ.pos 4294967296 }) open_world
    ≡ fault trap
create_handle_example =
    create_handle_lem open_world (world-IsSound _)
      (record default_options { max_open_files = ℤ.pos 4294967296 })

closed_refuses_example :
    Refusals
      (closed "/db" false)
      default_write_options
      default_read_options
      key_one
      ten
      (record { handle = 2 })
      (some key_one)
      none
      false
      "rocksdb.stats"
      4
      go_on
      open_world
closed_refuses_example =
    closed_refuses "/db" false default_write_options default_read_options key_one ten
      (record { handle = 2 }) (some key_one) none false "rocksdb.stats" 4 go_on open_world
