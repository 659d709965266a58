-- ===== src/Client/Store/Refinement.antt =====
-- A database of RocksDB.swift, over a library that keeps what it is given, is a map.
use rock_db_swift.Prelude.{
  ℕ, ◌≡◌, ◌≢◌, refl, ◌∙◌, true, Option, none, some, List, [], ◌∷◌, Bytes, Bool-cases, inl, inr,
  length, arith,
}
use rock_db_swift.System.{System, Code, Status}
use rock_db_swift.Memory.{Ptr, World, Run, pure}
use rock_db_swift.Memory.Effects.{IsSound, IsSound-later, Effect, Effect-bind, Effect-pure}
use rock_db_swift.Bridge.Database.Live.{Live}
use rock_db_swift.Client.Error.{Throws, returned}
use rock_db_swift.Client.Error.Reports.{reported}
use rock_db_swift.Client.AccessOptions.{RocksDbReadOptions, RocksDbWriteOptions}
use rock_db_swift.Client.AccessOptions.Handles.{library_read_options}
use rock_db_swift.Client.Database.{RocksDb}
use rock_db_swift.Client.Database.Writes.{Effect-put, Effect-delete}
use rock_db_swift.Client.Database.Reads.{Effect-get, fetched}
use rock_db_swift.Client.Database.Try.{Effect-returned}
use rock_db_swift.Client.Database.RoundTrip.{IsStore, fetched-present, fetched-absent, Live-after}
use rock_db_swift.Client.Scan.{bytes_eq}
use rock_db_swift.Client.Scan.Order.{bytes_eq-same, bytes_eq-eq}
use rock_db_swift.Client.Store.{
  Command, putting, deleting, getting, Map, set, spec_after, spec_answer, spec_answers, spec_final,
  run_command, run_commands, state_after, final_state, Granted, AllGranted,
}

-- A state of the library in which the database has the content of the map.
abbrev pub Holds :
    {S : System} {d : ℕ} (o : RocksDbReadOptions)
    → IsStore S d (library_read_options S o)
    → Map
    → S.State
    → Type 0
Holds o store m s = (j : Bytes) → store.content s j ≡ m j

accepted : (S : System) (t : S.State) (s : Status) → s.code ≡ Code.ok → reported S t s ≡ returned tt
accepted S t s fine = rw fine

Effect-accepted :
    {S : System} {w : World S} (s : Status) {t : S.State} {r : Run S (Throws (Unit {0}))}
    → s.code ≡ Code.ok
    → Effect w (reported S t s) t r
    → Effect w (returned tt) t r
Effect-accepted {S} s {t} fine h = rw (← accepted S t s fine) h

module _ {S : System} {d : ℕ} (o : RocksDbReadOptions) (v : RocksDbWriteOptions)
    (store : IsStore S d (library_read_options S o)) where
  set-Holds :
      (k : Bytes) (x : Option Bytes) (m : Map) (s t : S.State)
      → Holds o store m s
      → store.content t k ≡ x
      → ((j : Bytes) → j ≢ k → store.content t j ≡ store.content s j)
      → Holds o store (set k x m) t
  set-Holds k x m s t holds new old j = elim (Bool-cases (bytes_eq j k)) [
    | inl same ↦ rw (same, bytes_eq-eq j k same) new
    | inr other ↦ rw other (old j (λ e. ground (arith, other, bytes_eq-same k, e)) ∙ holds j)
  ]

  after-Holds :
      (c : Command) (m : Map) (s : S.State)
      → Holds o store m s
      → Granted S d o v c m s
      → Holds o store (spec_after c m) (state_after S d o v c s)
  after-Holds (putting x k) m s holds fine =
      set-Holds k (some x) m s _ holds (store.put_stores _ k x s fine)
        (λ j. store.put_keeps _ k x j s)
  after-Holds (deleting k) m s holds fine =
      set-Holds k none m s _ holds (store.delete_removes _ k s fine)
        (λ j. store.delete_keeps _ k j s)
  after-Holds (getting k) m s holds fine = λ j. store.get_keeps k j s ∙ holds j

  -- What a get finds is what the database holds.
  fetched-content :
      (k : Bytes) (s : S.State) (found : Option Bytes)
      → store.content s k ≡ found
      → ((x : Bytes)
          → found ≡ some x
          → S.grants (state_after S d o v (getting k) s) (length x) ≡ true)
      → (let result = S.get d (library_read_options S o) k s in
          fetched S result.1 result.0.0 result.0.1 ≡ returned found)
  fetched-content k s none e grants = fetched-absent S _ _ _ (store.get_misses k s e)
  fetched-content k s (some x) e grants =
      let (fine, value) = store.get_reads k x s e in
      fetched-present S _ _ _ x fine value (grants x refl)

  -- One command, answered as the map answers it.
  Effect-run_command :
      {w : World S} (sound : IsSound w) {p : Ptr} (live : Live w p d) (r : RocksDb)
      → r.handle ≡ some p
      → (c : Command) (m : Map) → Holds o store m w.engine
      → Granted S d o v c m w.engine
      → Effect w
          (returned (spec_answer c m))
          (state_after S d o v c w.engine)
          (run_command r o v c w)
  Effect-run_command sound live r e (putting x k) m holds fine =
      Effect-returned (λ _. pure (returned none))
        (Effect-accepted _ fine (Effect-put sound live r x k v e)) (λ n h. Effect-pure _ _)
  Effect-run_command sound live r e (deleting k) m holds fine =
      Effect-returned (λ _. pure (returned none))
        (Effect-accepted _ fine (Effect-delete sound live r k v e)) (λ n h. Effect-pure _ _)
  Effect-run_command {w} sound live r e (getting k) m holds grants =
      rw (← fetched-content k w.engine (m k) (holds k) grants) (Effect-get sound live r k o e)

module _ {S : System} {d : ℕ} (o : RocksDbReadOptions) (v : RocksDbWriteOptions)
    (store : IsStore S d (library_read_options S o)) where
  final-Holds :
      (cs : List Command) (m : Map) (s : S.State)
      → Holds o store m s
      → AllGranted S d o v cs m s
      → Holds o store (spec_final cs m) (final_state S d o v cs s)
  unfolding AllGranted spec_final final_state
  final-Holds [] m s holds grants = holds
  final-Holds (c ∷ cs) m s holds grants =
      final-Holds cs (spec_after c m) (state_after S d o v c s)
        (after-Holds o v store c m s holds grants.0) grants.1

  Effect-run_commands :
      (cs : List Command) (w : World S) (sound : IsSound w) {p : Ptr} (live : Live w p d)
      (r : RocksDb)
      → r.handle ≡ some p
      → (m : Map) → Holds o store m w.engine
      → AllGranted S d o v cs m w.engine
      → Effect w (spec_answers cs m) (final_state S d o v cs w.engine) (run_commands r o v cs w)
  unfolding run_commands AllGranted spec_answers final_state
  Effect-run_commands [] w sound live r e m holds grants = Effect-pure _ _
  Effect-run_commands (c ∷ cs) w sound live r e m holds grants =
      let s = state_after S d o v c w.engine in
      Effect-bind _ (Effect-run_command o v store sound live r e c m holds grants.0) (λ n h.
        Effect-bind _
          (Effect-run_commands cs _ (IsSound-later sound n s h) (Live-after sound live n s) r e
            (spec_after c m) (after-Holds o v store c m w.engine holds grants.0) grants.1)
          (λ n h. Effect-pure _ _))

  -- On an open database, over a library database that behaves as a map and whose content is that
  -- of a map, any sequence of `put`, `delete` and `get` whose writes the library accepts and whose
  -- reads the allocator grants gives the answers that the map gives, and the database then holds
  -- what the map then holds; the heap is left as it was.
  pub run_commands-spec_answers :
      {w : World S} (sound : IsSound w) {p : Ptr} (live : Live w p d) (r : RocksDb)
      → r.handle ≡ some p
      → (cs : List Command) (m : Map) → Holds o store m w.engine
      → AllGranted S d o v cs m w.engine
      → Effect w (spec_answers cs m) (final_state S d o v cs w.engine) (run_commands r o v cs w)
        × Holds o store (spec_final cs m) (final_state S d o v cs w.engine)
  run_commands-spec_answers sound live r e cs m holds grants =
      (Effect-run_commands cs _ sound live r e m holds grants, final-Holds cs m _ holds grants)
