-- ===== src/Tests/Witnesses/Scans.antt =====
-- The theorems on iterators and scans at concrete inputs.
use rock_db_swift.Prelude.{true, some, [], ◌∷◌, ◌≡◌, refl, arith}
use rock_db_swift.Memory.{iterator, fault, precondition, effect, ◌>>◌}
use rock_db_swift.Memory.Effects.{Effect}
use rock_db_swift.Client.Error.{returned}
use rock_db_swift.Memory.Creations.{Created}
use rock_db_swift.Client.AccessOptions.{default_read_options}
use rock_db_swift.Client.Iterator.Making.{Created-make_iterator}
use rock_db_swift.Client.Iterator.{cursor_next, seek, make_iterator}
use rock_db_swift.Client.Iterator.Cursors.{running, cursor_next-running}
use rock_db_swift.Client.Scan.{scan_loop, matches}
use rock_db_swift.Client.Scan.Order.{le_bytes, is_prefix, matches-is_prefix}
use rock_db_swift.Client.Scan.Walk.{object, walk, scan_loop-walk, seek-select}
use rock_db_swift.Client.Scan.{for_each, for_each_with_prefix}
use rock_db_swift.Client.Scan.Loops.{Effect-for_each, Effect-for_each_with_prefix}
use rock_db_swift.Client.Scan.Visits.{body_of}
use rock_db_swift.Tests.Sample.{sample}
use rock_db_swift.Tests.Worlds.{
  three, start, world-IsSound, world-At, open_world, open_world-Live, database, sample_iterator,
  three-IsSorted,
}
use rock_db_swift.Tests.Values.{key_one, ten, iterator_world, go_on, go_on-Spares, accept}

matches_example : matches key_one (1 ∷ 2 ∷ []) ≡ is_prefix key_one (1 ∷ 2 ∷ [])
matches_example = matches-is_prefix key_one (1 ∷ 2 ∷ [])

cursor_next-running_example :
    cursor_next (running 1) (record iterator_world { engine = record start { ahead = [] } })
    ≡ fault precondition
cursor_next-running_example =
    cursor_next-running sample_iterator
      {w = record iterator_world { engine = record start { ahead = [] } }} []
      (record { ne_null = (world-At (iterator (some 0))).ne_null; holds = refl }) refl

scan_loop-walk_example :
    scan_loop 4 (λ _. true) go_on (object 1) iterator_world ≡ walk 0 go_on three iterator_world
scan_loop-walk_example =
    scan_loop-walk sample_iterator 1 go_on go_on-Spares (λ _. true) 4 three iterator_world
      (record { at = world-At _; before = refl }) (omega arith)

seek-select_example :
    (seek (object 1) key_one >> scan_loop 4 (matches key_one) go_on (object 1)) iterator_world
    ≡ (effect sample (λ s. s) >> walk 0 go_on ((key_one, ten) ∷ (1 ∷ 2 ∷ [], 20 ∷ []) ∷ []))
        iterator_world
unfolding is_prefix le_bytes
seek-select_example =
    seek-select sample_iterator 1 go_on go_on-Spares 4 key_one three iterator_world (world-At _)
      three-IsSorted refl (omega arith)

Effect-for_each_example :
    Effect open_world
      (returned tt)
      (record start { ahead = [] })
      (for_each 4 database (body_of {S = sample} accept) open_world)
Effect-for_each_example =
    Effect-for_each (world-IsSound _) open_world-Live sample_iterator accept (λ k x s. refl)
      database 4 three start refl refl refl (omega arith)

Effect-for_each_with_prefix_example :
    Effect open_world
      (returned tt)
      (record start { ahead = (2 ∷ [], 30 ∷ []) ∷ [] })
      (for_each_with_prefix 4 database key_one (body_of {S = sample} accept) open_world)
unfolding is_prefix le_bytes
Effect-for_each_with_prefix_example =
    Effect-for_each_with_prefix (world-IsSound _) open_world-Live sample_iterator accept
      (λ k x s. refl) database 4 key_one three start refl refl three-IsSorted refl (omega arith)

Created-make_iterator_example :
    Created open_world
      (λ q. returned (record { handle = some q }))
      (iterator (some 0))
      start
      (make_iterator database default_read_options open_world)
Created-make_iterator_example =
    Created-make_iterator (world-IsSound _) open_world-Live database default_read_options refl
