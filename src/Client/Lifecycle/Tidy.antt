-- ===== src/Client/Lifecycle/Tidy.antt =====
-- What stays true while a `RocksDB` object is used: the heap holds the handle of the open database
-- and nothing else that the object has left there.
use rock_db_swift.Prelude.{
  ◌≡◌, refl, sym, ◌∙◌, ◌≤◌, Bool, true, false, Option, none, Bool-cases, inl, inr, if◌then◌else◌,
}
use rock_db_swift.System.{System}
use rock_db_swift.Memory.{Ptr, Cell, World, Run, ok, precondition}
use rock_db_swift.Memory.Creations.{restored, IsSound-removed}
use rock_db_swift.Memory.Effects.{same_answer, same_world, IsSound-later}
use rock_db_swift.Client.Database.{RocksDb, close}
use rock_db_swift.Client.Database.Closing.{close-open}
use rock_db_swift.Client.Lifecycle.{
  Step, Steps, open_step, open_read_only_step, open_with_transactions_step, close_step, put_step,
  get_step, delete_step, key_may_exist_step, flush_step, compact_range_step, get_property_step,
  done, then_step,
}
use rock_db_swift.Client.Lifecycle.Openings.{
  IsOpener, differ, faulty, Tidy-open_at, Tidy-open_read_only, Tidy-open_with_transactions,
}
use rock_db_swift.Client.Lifecycle.Quiet.{
  Tidy, tidy_closed, tidy_open, Quiet, Quiet-put, Quiet-get, Quiet-delete, Quiet-key_may_exist,
  Quiet-flush, Quiet-compact_range, Quiet-get_property,
}

module _ {S : System} {base : Ptr → Option (Cell S)} {r : RocksDb} {w : World S} where
  Tidy-later :
      Tidy base r w
      → (n : Ptr) (s : S.State) → w.next ≤ n
      → Tidy base r (record w { next = n; engine = s })
  Tidy-later (tidy_closed e sound h) n s le = tidy_closed e (IsSound-later sound n s le) h
  Tidy-later (tidy_open b d m e sound at stands free h) n s le =
      tidy_open b d m e (IsSound-later sound n s le)
        (record { ne_null = at.ne_null; holds = at.holds }) stands free h

  -- A method that leaves the heap alone.
  Tidy-Quiet :
      {A : Type 0} {a : A} {v : World S} (run : Run S A)
      → Tidy base r w
      → Quiet w run
      → run ≡ ok a v
      → Tidy base r v
  Tidy-Quiet run tidy q e =
      rw (← same_world (sym q.effect.runs ∙ e))
        (Tidy-later tidy q.effect.after q.state q.effect.grows)

pub chosen : {A : Type 0} (b : Bool) (x y : A) → b ≡ false → (if b then x else y) ≡ y
chosen b x y e = rw e

pub refused : {A : Type 0} (b : Bool) (x y : A) → b ≡ true → (if b then x else y) ≡ x
refused b x y e = rw e

pub close-closed : {S : System} (r : RocksDb) (w : World S) → r.handle ≡ none → close r w ≡ ok r w
unfolding close
close-closed r w e = rw e

module _ {S : System} {base : Ptr → Option (Cell S)} {r : RocksDb} {w : World S} where
  Tidy-closed : {q : RocksDb} {v : World S} → Tidy base r w → close r w ≡ ok q v → Tidy base q v
  Tidy-closed (tidy_closed e sound h) run =
      let e' = sym (close-closed r w e) ∙ run in
      rw (← same_answer e', ← same_world e') (tidy_closed e sound h)
  Tidy-closed (tidy_open {p} transactional d m e sound at stands free h) run =
      let runs = close-open r transactional d m at e in
      elim (Bool-cases (S.has_iterators d w.engine)) [
        | inl used ↦ absurd (faulty precondition _ _ (sym (refused _ _ _ used) ∙ sym runs ∙ run))
        | inr idle ↦
            let e' = sym (chosen _ _ _ idle) ∙ sym runs ∙ run in
            rw (← same_answer e', ← same_world e')
              (tidy_closed refl (IsSound-removed w p _ sound) (restored base p _ _ free h))
      ]

module _ {S : System} (opener : IsOpener S) {base : Ptr → Option (Cell S)} where
  Tidy-Step : {r q : RocksDb} {w v : World S} → Tidy base r w → Step r w q v → Tidy base q v
  Tidy-Step {r} (tidy_closed e sound h) (open_step path o shut run) =
      rw (← h) (Tidy-open_at sound path o opener r shut run)
  Tidy-Step {r} (tidy_closed e sound h) (open_read_only_step path o refuse_wal shut run) =
      rw (← h) (Tidy-open_read_only sound path o opener r shut refuse_wal run)
  Tidy-Step {r} (tidy_closed e sound h) (open_with_transactions_step path o shut run) =
      rw (← h) (Tidy-open_with_transactions sound path o opener r shut run)
  Tidy-Step (tidy_open b d m e sound at stands free h) (open_step path o shut run) =
      absurd (differ (sym e ∙ shut))
  Tidy-Step (tidy_open b d m e sound at stands free h)
        (open_read_only_step path o refuse_wal shut run) =
      absurd (differ (sym e ∙ shut))
  Tidy-Step (tidy_open b d m e sound at stands free h)
        (open_with_transactions_step path o shut run) =
      absurd (differ (sym e ∙ shut))
  Tidy-Step tidy (close_step run) = Tidy-closed tidy run
  Tidy-Step tidy (put_step value key o run) = Tidy-Quiet _ tidy (Quiet-put tidy value key o) run
  Tidy-Step tidy (get_step key o run) = Tidy-Quiet _ tidy (Quiet-get tidy key o) run
  Tidy-Step tidy (delete_step key o run) = Tidy-Quiet _ tidy (Quiet-delete tidy key o) run
  Tidy-Step tidy (key_may_exist_step key o run) =
      Tidy-Quiet _ tidy (Quiet-key_may_exist tidy key o) run
  Tidy-Step tidy (flush_step wait run) = Tidy-Quiet _ tidy (Quiet-flush tidy wait) run
  Tidy-Step tidy (compact_range_step i j run) = Tidy-Quiet _ tidy (Quiet-compact_range tidy i j) run
  Tidy-Step tidy (get_property_step name run) = Tidy-Quiet _ tidy (Quiet-get_property tidy name) run

  -- If the library stores a database exactly where it reports OK, then from a state whose heap is
  -- a given one and the handle of the open database, if there is one, any number of calls of the
  -- three `open`s on a closed object, `close`, `put`, `get`, `delete`, `keyMayExist`, `flush`,
  -- `compactRange` and `getProperty`, each of which returns or throws, lead to such a state.
  pub Tidy-Steps : {r q : RocksDb} {w v : World S} → Tidy base r w → Steps r w q v → Tidy base q v
  Tidy-Steps tidy done = tidy
  Tidy-Steps tidy (then_step steps step) = Tidy-Step (Tidy-Steps tidy steps) step
