-- ===== src/Tests/Witnesses/Databases.antt =====
-- The theorems on databases at concrete inputs.
use rock_db_swift.Prelude.{true, false, none, some, [], ◌∷◌, ◌≡◌, refl, codes}
use rock_db_swift.Prelude.Int.{pos}
use rock_db_swift.Bridge.Maintenance.{rocksdb_get_approximate_sizes}
use rock_db_swift.Bridge.Maintenance.Sizes.{rocksdb_get_approximate_sizes-Live}
use rock_db_swift.Memory.{ok, db}
use rock_db_swift.Memory.Effects.{Effect}
use rock_db_swift.Memory.Creations.{Created, without}
use rock_db_swift.Bridge.Status.{is_code}
use rock_db_swift.Bridge.Database.{new_handle}
use rock_db_swift.Client.Error.{returned, threw, invalid_argument}
use rock_db_swift.Client.Options.{default_options}
use rock_db_swift.Client.AccessOptions.{default_read_options, default_write_options}
use rock_db_swift.Client.Database.{put, get, close, open_at, ◌>>?◌}
use rock_db_swift.Client.Text
use rock_db_swift.Client.Scan.{bytes_eq}
use rock_db_swift.Client.Text.RoundTrip.{put_string-get_string}
use rock_db_swift.Client.Database.Reads.{Effect-get}
use rock_db_swift.Client.Database.Opening.{Created-open_at, Effect-open_at}
use rock_db_swift.Client.Database.Closing.{close-open}
use rock_db_swift.Client.Database.RoundTrip.{put-get}
use rock_db_swift.Client.Database.Opening
use rock_db_swift.Tests.Sample.{assign}
use rock_db_swift.Client.Database.{open_with_transactions}
use rock_db_swift.Client.Database.Closing.{open_handle}
use rock_db_swift.Client.Database.OtherOpenings.{
  Created-open_with_transactions, Effect-open_with_transactions,
}
use rock_db_swift.Client.Maintenance.{get_property}
use rock_db_swift.Client.Maintenance.Calls.{Effect-get_property}
use rock_db_swift.Tests.Worlds.{
  start, world-IsSound, world-At, open_world, open_world-Live, database, sample_store,
}
use rock_db_swift.Tests.Values.{key_one, ten, put_state, existing_only}

put_string-get_string_example :
    Effect open_world (returned (some "text")) (assign (codes "key") (some (codes "text")) start) (
      (Text.put_string database "text" "key" default_write_options >>? λ _.
      Text.get_string database "key" default_read_options)
        open_world)
unfolding bytes_eq
put_string-get_string_example =
    put_string-get_string (world-IsSound _) open_world-Live database refl default_read_options
      default_write_options (sample_store _) "text" "key" (codes "text") (codes "key") refl refl
      refl refl refl

Effect-get_example :
    Effect open_world (returned none) start (get database key_one default_read_options open_world)
Effect-get_example =
    Effect-get (world-IsSound _) open_world-Live database key_one default_read_options refl

put-get_example : Effect open_world (returned (some ten)) put_state (
    (put database ten key_one default_write_options >>? λ _.
    get database key_one default_read_options)
      open_world)
put-get_example =
    put-get (world-IsSound _) open_world-Live database refl default_read_options
      default_write_options (sample_store _) ten key_one refl refl

close-open_example :
    close database open_world ≡ ok (record database { handle = none }) (without open_world 1)
close-open_example = close-open database false 0 none (world-At _) refl

Created-open_at_example :
    Created open_world
      (λ p. returned (Opening.database "/db" false p))
      (db (record new_handle { db = some 0 }))
      start
      (open_at "/db" default_options open_world)
unfolding is_code
Created-open_at_example = Created-open_at (world-IsSound _) "/db" default_options refl refl

Effect-open_at_example :
    Effect open_world
      (threw (invalid_argument "text"))
      start
      (open_at "/db" existing_only open_world)
unfolding is_code
Effect-open_at_example = Effect-open_at (world-IsSound _) "/db" existing_only refl refl refl

Created-open_with_transactions_example :
    Created open_world
      (λ p. returned (Opening.database "/db" true p))
      (db (open_handle true 0 (some 0)))
      start
      (open_with_transactions "/db" default_options open_world)
unfolding is_code
Created-open_with_transactions_example =
    Created-open_with_transactions (world-IsSound _) "/db" default_options refl 0 refl refl

Effect-open_with_transactions_example :
    Effect open_world
      (threw (invalid_argument "text"))
      start
      (open_with_transactions "/db" existing_only open_world)
unfolding is_code
Effect-open_with_transactions_example =
    Effect-open_with_transactions (world-IsSound _) "/db" existing_only refl refl refl

Effect-get_property_example :
    Effect open_world
      (some "text")
      start
      (get_property database "rocksdb.estimate-num-keys" open_world)
Effect-get_property_example =
    Effect-get_property (world-IsSound _) open_world-Live database refl "rocksdb.estimate-num-keys"

rocksdb_get_approximate_sizes-Live_example :
    rocksdb_get_approximate_sizes 1 (pos 2) (key_one ∷ ten ∷ []) (ten ∷ ten ∷ []) open_world
    ≡ ok (some []) open_world
rocksdb_get_approximate_sizes-Live_example =
    rocksdb_get_approximate_sizes-Live open_world (key_one ∷ ten ∷ []) (ten ∷ ten ∷ []) 1
      open_world-Live refl refl
