-- ===== src/Client/Locked/Life/Progress.antt =====
-- Threads that use a `RocksDB` object never wait for each other for ever.
use rock_db_swift.Prelude.{ℕ, ◌≡◌, ◌≢◌, sym, ap, ◌∙◌, true, Option, List, [], ◌∷◌, ◌≤◌, arith}
use rock_db_swift.System.{System}
use rock_db_swift.Memory.{Ptr, Cell, World, Run, ok, Fault, fault, pure, and_then}
use rock_db_swift.Client.Database.{RocksDb}
use rock_db_swift.Client.Lifecycle.{Steps}
use rock_db_swift.Client.Lifecycle.Quiet.{
  Tidy, Quiet-put, Quiet-get, Quiet-delete, Quiet-key_may_exist, Quiet-flush, Quiet-compact_range,
  Quiet-get_property,
}
use rock_db_swift.Client.Lifecycle.Openings.{IsOpener, faulty}
use rock_db_swift.Client.Lifecycle.Tidy.{Tidy-Steps}
use rock_db_swift.Client.Locked.Mutex.{RecursiveLock, IsRecursive}
use rock_db_swift.Client.Locked.Threads.{
  Entry, Serial, nothing, next, Threads, Reach, Step, AlwaysAnswers, unwound, pending,
}
use rock_db_swift.Client.Locked.Serialised.{no_deadlock}
use rock_db_swift.Client.Locked.Serialised.Answered.{Reach-answered}
use rock_db_swift.Client.Locked.Databases.{
  Call, asking_open, closing, putting, getting, deleting, testing, writing_batch,
  beginning_transaction, making_iterator, compacting, flushing, reporting, method,
}
use rock_db_swift.Client.Locked.Life.{is_plain, plain_class, Serial-Steps}
use rock_db_swift.Client.Locked.Life.Idle.{MakesNoIterators, Idle}
use rock_db_swift.Client.Locked.Life.Methods.{close-Idle, Idle-method}

-- A run that has an answer does not fault, whatever pure function comes after.
answered :
    {S : System} {A B : Type 0} {a : A} {v : World S} {run : Run S A} (k : A → B) (f : Fault)
    → run ≡ ok a v
    → and_then run (λ x. pure (k x)) ≢ fault f
answered k f runs e = faulty f _ _ (sym e ∙ ap (λ x. and_then x λ y. pure (k y)) runs)

module _ {S : System} {base : Ptr → Option (Cell S)} {r : RocksDb} {w : World S} where
  method-answers :
      Tidy base r w
      → Idle r w
      → (c : Call) → is_plain c ≡ true
      → (f : Fault) → method c r w ≢ fault f
  unfolding method
  method-answers tidy idle asking_open plain f = λ e. faulty f _ _ (sym e)
  method-answers tidy idle closing plain f =
      let (q, v, runs, shut) = close-Idle tidy idle in answered _ f runs
  method-answers tidy idle (putting value key o) plain f =
      answered _ f (Quiet-put tidy value key o).effect.runs
  method-answers tidy idle (getting key o) plain f = answered _ f (Quiet-get tidy key o).effect.runs
  method-answers tidy idle (deleting key o) plain f =
      answered _ f (Quiet-delete tidy key o).effect.runs
  method-answers tidy idle (testing key o) plain f =
      answered _ f (Quiet-key_may_exist tidy key o).effect.runs
  method-answers tidy idle (writing_batch b o) plain f = absurd (ground (arith, plain))
  method-answers tidy idle (beginning_transaction o) plain f = absurd (ground (arith, plain))
  method-answers tidy idle (making_iterator o) plain f = absurd (ground (arith, plain))
  method-answers tidy idle (compacting start_key end_key) plain f =
      answered _ f (Quiet-compact_range tidy start_key end_key).effect.runs
  method-answers tidy idle (flushing wait) plain f =
      answered _ f (Quiet-flush tidy wait).effect.runs
  method-answers tidy idle (reporting name) plain f =
      answered _ f (Quiet-get_property tidy name).effect.runs

module _ {S : System} (opener : IsOpener S) (none_made : MakesNoIterators S)
    {base : Ptr → Option (Cell S)} {r : RocksDb} {w : World S} (tidy : Tidy base r w)
    (idle : Idle r w) where
  Serial-Idle :
      {es : List (Entry (plain_class S))} {q : RocksDb} {v : World S}
      → Serial (plain_class S) r w es q v
      → Idle q v
  Serial-Idle nothing = idle
  Serial-Idle (next i c a serial e) =
      Idle-method none_made (Tidy-Steps opener tidy (Serial-Steps serial)) (Serial-Idle serial) c.0
        c.1 e

  Tidy-AlwaysAnswers : AlwaysAnswers (plain_class S) r w
  Tidy-AlwaysAnswers = record {
    answers = λ es q v serial c f.
        method-answers (Tidy-Steps opener tidy (Serial-Steps serial)) (Serial-Idle serial) c.0 c.1
          f;
  }

  -- In every state that threads which share a `RocksDB` object reach, in which one of them has a
  -- call left, some thread can move.
  pub plain-no_deadlock :
      {L : RecursiveLock} (rec : IsRecursive L) {programs : ℕ → List (plain_class S).Call}
      {s : Threads (plain_class S) L}
      → Reach (plain_class S) L programs r w s
      → (i : ℕ) (c : (plain_class S).Call) (cs : List (plain_class S).Call)
      → pending (plain_class S) (s.places i) ≡ c ∷ cs
      → (t : Threads (plain_class S) L) × Step (plain_class S) L s t
  plain-no_deadlock rec = no_deadlock rec Tidy-AlwaysAnswers

  -- If the library stores a database exactly where it reports OK and its calls other than
  -- `NewIterator` make no iterators, finitely many threads share a `RocksDB` object, the heap is a
  -- given one and the handle of the open database, if there is one, this database has no
  -- iterators, and the threads call `isOpen`, `close`, `put`, `get`, `delete`, `keyMayExist`,
  -- `compactRange`, `flush` and `getProperty`, with a lock that behaves as documented, then from
  -- every state that they reach they can come to one in which every call of every thread is
  -- answered; what they have done is then the life of an object that one thread uses, the calls of
  -- each thread in its order, and the heap is again the given one and the handle of the open
  -- database, if there is one.
  pub Reach-finished :
      {L : RecursiveLock} (rec : IsRecursive L) {programs : ℕ → List (plain_class S).Call} (n : ℕ)
      (finite : (i : ℕ) → n ≤ i → programs i ≡ []) {s : Threads (plain_class S) L}
      → Reach (plain_class S) L programs r w s
      → (t : Threads (plain_class S) L) × Reach (plain_class S) L programs r w t
        × Steps r w t.object t.world
        × Tidy base t.object t.world
        × ((i : ℕ) → programs i ≡ unwound (plain_class S) i t.log [])
  Reach-finished rec n finite reach =
      let (t, reached, serial, order) = Reach-answered r w rec n finite Tidy-AlwaysAnswers reach in
      let steps = Serial-Steps serial in (t, reached, steps, Tidy-Steps opener tidy steps, order)
