-- ===== src/Client/Locked/Stores/Agreement.antt =====
-- The threads of a store are answered as a map answers.
use rock_db_swift.Prelude.{ℕ, some, ◌≡◌, refl, sym, ap, ◌∙◌, List, [], ◌∷◌, ◌++◌}
use rock_db_swift.System.{System}
use rock_db_swift.Memory.{Ptr, World, ok, pure, and_then}
use rock_db_swift.Memory.Effects.{same_answer, same_world, IsSound}
use rock_db_swift.Bridge.Database.Live.{Live}
use rock_db_swift.Client.AccessOptions.{RocksDbReadOptions, RocksDbWriteOptions}
use rock_db_swift.Client.AccessOptions.Handles.{library_read_options}
use rock_db_swift.Client.Database.{RocksDb}
use rock_db_swift.Client.Database.RoundTrip.{IsStore}
use rock_db_swift.Client.Store.{
  Command, Map, run_command, run_commands, spec_answers, spec_final, AllGranted,
}
use rock_db_swift.Client.Store.Refinement.{Holds, run_commands-spec_answers}
use rock_db_swift.Client.Locked.{beside-ok, and_then-and_then, and_then-cong}
use rock_db_swift.Client.Locked.Mutex.{RecursiveLock, IsRecursive}
use rock_db_swift.Client.Locked.Threads.{
  Entry, Threads, Reach, Serial, nothing, next, unwound, pending, depth,
}
use rock_db_swift.Client.Locked.Serialised.{Reach-Serial}
use rock_db_swift.Client.Locked.Stores.{store_class, commands, answers}

module _ {S : System} (o : RocksDbReadOptions) (v : RocksDbWriteOptions) (r : RocksDb) where
  run_commands-snoc :
      (cs : List Command) (c : Command) (w : World S)
      → run_commands r o v (cs ++ c ∷ []) w
        ≡ and_then
            (run_commands r o v cs w)
            λ given u. and_then (run_command r o v c u) λ a. pure (given ++ a ∷ [])
  unfolding run_commands
  run_commands-snoc [] c w = refl
  run_commands-snoc (d ∷ cs) c w =
      and_then-cong (run_command r o v d w) (λ a u.
        ap (λ run. and_then run λ given. pure (a ∷ given)) (run_commands-snoc cs c u)
        ∙ and_then-and_then (run_commands r o v cs u) _ _
        ∙ and_then-cong (run_commands r o v cs u)
            (λ given t. and_then-and_then (run_command r o v c t) _ _)
        ∙ sym (and_then-and_then (run_commands r o v cs u) _ _))
      ∙ sym (and_then-and_then (run_command r o v d w) _ _)

  -- A log of whole commands is a run of them.
  Serial-run_commands :
      {w : World S} {es : List (Entry (store_class S o v))} {q : RocksDb} {u : World S}
      → Serial (store_class S o v) r w es q u
      → (r ≡ q) × (run_commands r o v (commands S o v es) w ≡ ok (answers S o v es) u)
  unfolding commands answers run_commands
  Serial-run_commands nothing = (refl, refl)
  Serial-run_commands {w} (next {es} {q} {p} {v = t} {u} i c a serial e) =
      let (same, runs) = Serial-run_commands serial in
      let (answered, kept) = beside-ok (run_command q o v c t) e in
      let rerun : run_command r o v c t ≡ ok a u =
        ap (λ x. run_command x o v c t) same ∙ answered in
      (
        same ∙ kept,
        run_commands-snoc (commands S o v es) c w
            ∙ ap
                (λ run.
                  and_then run
                    λ given u. and_then (run_command r o v c u) λ a. pure (given ++ a ∷ []))
                runs
            ∙ ap (λ run. and_then run λ a. pure (answers S o v es ++ a ∷ [])) rerun,
      )

module _ {S : System} {d : ℕ} (o : RocksDbReadOptions) (v : RocksDbWriteOptions)
    (store : IsStore S d (library_read_options S o)) {L : RecursiveLock} (rec : IsRecursive L)
    {w : World S} (sound : IsSound w) {p : Ptr} (live : Live w p d) (r : RocksDb)
    (e : r.handle ≡ some p) where
  -- Any number of threads call `put`, `delete` and `get` on one open database, with a lock that
  -- behaves as documented and over a library database that behaves as a map and whose content is
  -- that of a map; their accesses are interleaved in any order. In a state that they reach and in
  -- which none of them is in a method, take the calls that have been answered in the order in
  -- which they returned: if in this order the library accepts the writes and the allocator grants
  -- the reads, then the answers are those that the map gives, the database holds what the map then
  -- holds, the heap and the object are as they were, and the calls of each thread are the first
  -- ones of its program, in its order.
  pub Reach-spec_answers :
      {programs : ℕ → List Command} {s : Threads (store_class S o v) L}
      → Reach (store_class S o v) L programs r w s
      → ((i : ℕ) → depth (store_class S o v) (s.places i) ≡ 0)
      → (m : Map) → Holds o store m w.engine
      → AllGranted S d o v (commands S o v s.log) m w.engine
      → (answers S o v s.log ≡ spec_answers (commands S o v s.log) m)
        × Holds o store (spec_final (commands S o v s.log) m) s.world.engine
        × (s.world.heap ≡ w.heap)
        × (s.object ≡ r)
        × ((i : ℕ)
            → programs i
              ≡ unwound (store_class S o v) i s.log (pending (store_class S o v) (s.places i)))
  Reach-spec_answers {s} reach out m holds grants =
      let (serial, order) = Reach-Serial rec reach out in
      let (same, runs) = Serial-run_commands o v r serial in
      let (effect, final) =
        run_commands-spec_answers o v store sound live r e (commands S o v s.log) m holds grants in
      let ends = sym runs ∙ effect.runs in
      (
        same_answer ends,
        rw (same_world ends) final,
        ap (λ u. u.heap) (same_world ends),
        sym same,
        order,
      )
