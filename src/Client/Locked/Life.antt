-- ===== src/Client/Locked/Life.antt =====
-- The life of a `RocksDB` object that several threads use: a sequence of whole calls, as the life
-- of an object that one thread uses.
pub mod Idle
pub mod Methods
pub mod Progress
use rock_db_swift.Prelude.{
  ℕ, ◌≡◌, ◌≢◌, refl, sym, ap, ◌∙◌, subst, Bool, true, false, Option, none, some, List, ◌∷◌,
  Bool-cases, inl, inr, arith,
}
use rock_db_swift.System.{System}
use rock_db_swift.Memory.{Ptr, Cell, World, Run, ok, Fault, fault, M, pure, and_then}
use rock_db_swift.Memory.Effects.{same_answer, same_world}
use rock_db_swift.Client.Database.{RocksDb, close, put, get}
use rock_db_swift.Client.Lifecycle.{
  Steps, done, then_step, close_step, put_step, get_step, delete_step, key_may_exist_step,
  flush_step, compact_range_step, get_property_step,
}
use rock_db_swift.Client.Lifecycle.Quiet.{Tidy}
use rock_db_swift.Client.Lifecycle.Openings.{IsOpener, faulty}
use rock_db_swift.Client.Lifecycle.Tidy.{Tidy-Steps}
use rock_db_swift.Client.Locked.{beside-ok, done-ok}
use rock_db_swift.Client.Locked.Mutex.{RecursiveLock, IsRecursive}
use rock_db_swift.Client.Locked.Threads.{
  Class, restricted, Entry, Threads, Reach, Step, Serial, nothing, next, AlwaysAnswers, depth,
  pending,
}
use rock_db_swift.Client.Locked.Serialised.{Reach-Serial, no_deadlock}
use rock_db_swift.Client.Locked.Databases.{
  Call, asking_open, closing, putting, getting, deleting, testing, writing_batch,
  beginning_transaction, making_iterator, compacting, flushing, reporting, Answer, method,
}
use rock_db_swift.Client.Locked.Databases.Whole.{database_class}

-- The calls that make no other object and use none.
abbrev pub is_plain : Call → Bool
is_plain (writing_batch b o) = false
is_plain (beginning_transaction o) = false
is_plain (making_iterator o) = false
is_plain _ = true

abbrev pub plain_class : (S : System) → Class S
plain_class S = restricted (database_class S) is_plain

module _ {S : System} {r : RocksDb} {w : World S} where
  moved : {q p : RocksDb} {u : World S} → q ≡ p → Steps r w q u → Steps r w p u
  moved {u} e steps = subst (λ x. Steps r w x u) e steps

  -- One more call is one more step, or none.
  Steps-method :
      {q p : RocksDb} {v u : World S} (c : Call) {a : Answer c}
      → is_plain c ≡ true
      → Steps r w q v
      → method c q v ≡ ok (a, p) u
      → Steps r w p u
  unfolding method
  Steps-method {p} asking_open plain steps e =
      subst (λ x. Steps r w p x) (same_world e) (moved (ap (λ y. y.1) (same_answer e)) steps)
  Steps-method closing plain steps e = then_step steps (close_step (done-ok _ e))
  Steps-method (putting value key o) plain steps e =
      let (runs, same) = beside-ok _ e in moved same (then_step steps (put_step value key o runs))
  Steps-method (getting key o) plain steps e =
      let (runs, same) = beside-ok _ e in moved same (then_step steps (get_step key o runs))
  Steps-method (deleting key o) plain steps e =
      let (runs, same) = beside-ok _ e in moved same (then_step steps (delete_step key o runs))
  Steps-method (testing key o) plain steps e =
      let (runs, same) = beside-ok _ e in
      moved same (then_step steps (key_may_exist_step key o runs))
  Steps-method (writing_batch b o) plain steps e = absurd (ground (arith, plain))
  Steps-method (beginning_transaction o) plain steps e = absurd (ground (arith, plain))
  Steps-method (making_iterator o) plain steps e = absurd (ground (arith, plain))
  Steps-method (compacting start_key end_key) plain steps e =
      let (runs, same) = beside-ok _ e in
      moved same (then_step steps (compact_range_step start_key end_key runs))
  Steps-method (flushing wait) plain steps e =
      let (runs, same) = beside-ok _ e in moved same (then_step steps (flush_step wait runs))
  Steps-method (reporting name) plain steps e =
      let (runs, same) = beside-ok _ e in moved same (then_step steps (get_property_step name runs))

  pub Serial-Steps :
      {es : List (Entry (plain_class S))} {q : RocksDb} {v : World S}
      → Serial (plain_class S) r w es q v
      → Steps r w q v
  Serial-Steps nothing = done
  Serial-Steps (next i c a serial e) = Steps-method c.0 c.1 (Serial-Steps serial) e

module _ {S : System} (opener : IsOpener S) {L : RecursiveLock} (rec : IsRecursive L)
    {base : Ptr → Option (Cell S)} {r : RocksDb} {w : World S} (tidy : Tidy base r w)
    {programs : ℕ → List (plain_class S).Call} {s : Threads (plain_class S) L} where
  -- In every state that threads reach in which none is in a method, what they have done is the
  -- life of an object that one thread uses, and the heap is the given one and the handle of the
  -- open database, if there is one.
  pub Reach-Tidy :
      Reach (plain_class S) L programs r w s
      → ((i : ℕ) → depth (plain_class S) (s.places i) ≡ 0)
      → Steps r w s.object s.world × Tidy base s.object s.world
  Reach-Tidy reach out =
      let steps = Serial-Steps (Reach-Serial rec reach out).0 in
      (steps, Tidy-Steps opener tidy steps)
