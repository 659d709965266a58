-- ===== src/Client/Locked/Life/Methods.antt =====
-- The methods of RocksDB.swift that make no iterators: an idle database stays idle.
use rock_db_swift.Prelude.{
  ◌≡◌, refl, sym, ap, ◌∙◌, subst, Bool, true, false, Option, none, String, Bytes, arith,
}
use rock_db_swift.System.{System}
use rock_db_swift.Memory.{Ptr, Cell, World, ok}
use rock_db_swift.Memory.Effects.{same_answer, same_world}
use rock_db_swift.Client.Error.{Throws, threw, database_closed}
use rock_db_swift.Client.AccessOptions.{RocksDbReadOptions, RocksDbWriteOptions}
use rock_db_swift.Client.Database.{RocksDb, put, get, delete, key_may_exist, close}
use rock_db_swift.Client.Database.Closing.{close-open}
use rock_db_swift.Client.Database.Writes.{Effect-put, Effect-delete}
use rock_db_swift.Client.Database.Reads.{Effect-get}
use rock_db_swift.Client.Maintenance.{compact_range, flush, get_property}
use rock_db_swift.Client.Maintenance.Calls.{
  Effect-key_may_exist, Effect-flush, Effect-compact_range, Effect-get_property,
}
use rock_db_swift.Client.Lifecycle.Quiet.{Tidy, tidy_closed, tidy_open, Live-open, quiet}
use rock_db_swift.Client.Lifecycle.Openings.{differ}
use rock_db_swift.Client.Lifecycle.Tidy.{close-closed, chosen}
use rock_db_swift.Client.Locked.{beside-ok, done-ok}
use rock_db_swift.Client.Locked.Databases.{
  Call, asking_open, closing, putting, getting, deleting, testing, writing_batch,
  beginning_transaction, making_iterator, compacting, flushing, reporting, Answer, method,
}
use rock_db_swift.Client.Locked.Life.{is_plain}
use rock_db_swift.Client.Locked.Life.Idle.{MakesNoIterators, Idle, spared, Effect-run, Idle-Quiet}

module _ {S : System} (none_made : MakesNoIterators S) {base : Ptr → Option (Cell S)} {r : RocksDb}
    {w v : World S} where
  Idle-put :
      Tidy base r w
      → (value key : Bytes) (o : RocksDbWriteOptions) {a : Throws (Unit {0})}
      → put r value key o w ≡ ok a v
      → Idle r w
      → Idle r v
  Idle-put (tidy_closed e sound h) value key o run idle =
      let shut : put r value key o w ≡ ok (threw database_closed) w = unfold put in rw e refl in
      Idle-Quiet r idle (quiet (Effect-run shut)) run (λ j. spared w j shut run (λ same. same))
  Idle-put (tidy_open b d m e sound at stands free h) value key o run idle =
      let done = Effect-put sound (Live-open at stands) r value key o e in
      Idle-Quiet r idle (quiet done) run (λ j. spared w j done.runs run (none_made.put j _ _ _ _ _))

  Idle-get :
      Tidy base r w
      → (key : Bytes) (o : RocksDbReadOptions) {a : Throws (Option Bytes)} → get r key o w ≡ ok a v
      → Idle r w
      → Idle r v
  Idle-get (tidy_closed e sound h) key o run idle =
      let shut : get r key o w ≡ ok (threw database_closed) w = unfold get in rw e refl in
      Idle-Quiet r idle (quiet (Effect-run shut)) run (λ j. spared w j shut run (λ same. same))
  Idle-get (tidy_open b d m e sound at stands free h) key o run idle =
      let done = Effect-get sound (Live-open at stands) r key o e in
      Idle-Quiet r idle (quiet done) run (λ j. spared w j done.runs run (none_made.get j _ _ _ _))

  Idle-delete :
      Tidy base r w
      → (key : Bytes) (o : RocksDbWriteOptions) {a : Throws (Unit {0})} → delete r key o w ≡ ok a v
      → Idle r w
      → Idle r v
  Idle-delete (tidy_closed e sound h) key o run idle =
      let shut : delete r key o w ≡ ok (threw database_closed) w = unfold delete in rw e refl in
      Idle-Quiet r idle (quiet (Effect-run shut)) run (λ j. spared w j shut run (λ same. same))
  Idle-delete (tidy_open b d m e sound at stands free h) key o run idle =
      let done = Effect-delete sound (Live-open at stands) r key o e in
      Idle-Quiet r idle (quiet done) run
        (λ j. spared w j done.runs run (none_made.delete j _ _ _ _))

  Idle-key_may_exist :
      Tidy base r w
      → (key : Bytes) (o : RocksDbReadOptions) {a : Bool} → key_may_exist r key o w ≡ ok a v
      → Idle r w
      → Idle r v
  Idle-key_may_exist (tidy_closed e sound h) key o run idle =
      let shut : key_may_exist r key o w ≡ ok (false) w = unfold key_may_exist in rw e refl in
      Idle-Quiet r idle (quiet (Effect-run shut)) run (λ j. spared w j shut run (λ same. same))
  Idle-key_may_exist (tidy_open b d m e sound at stands free h) key o run idle =
      let done = Effect-key_may_exist sound (Live-open at stands) r e key o in
      Idle-Quiet r idle (quiet done) run
        (λ j. spared w j done.runs run (none_made.key_may_exist j _ _ _ _))

  Idle-compact_range :
      Tidy base r w
      → (start_key end_key : Option Bytes) {a : Throws (Unit {0})}
      → compact_range r start_key end_key w ≡ ok a v
      → Idle r w
      → Idle r v
  Idle-compact_range (tidy_closed e sound h) start_key end_key run idle =
      let shut : compact_range r start_key end_key w ≡ ok (threw database_closed) w =
        unfold compact_range in rw e refl in
      Idle-Quiet r idle (quiet (Effect-run shut)) run (λ j. spared w j shut run (λ same. same))
  Idle-compact_range (tidy_open b d m e sound at stands free h) start_key end_key run idle =
      let done = Effect-compact_range sound (Live-open at stands) r e start_key end_key in
      Idle-Quiet r idle (quiet done) run
        (λ j. spared w j done.runs run (none_made.compact_range j _ _ _ _ _))

  Idle-flush :
      Tidy base r w
      → (wait : Bool) {a : Throws (Unit {0})} → flush r wait w ≡ ok a v
      → Idle r w
      → Idle r v
  Idle-flush (tidy_closed e sound h) wait run idle =
      let shut : flush r wait w ≡ ok (threw database_closed) w = unfold flush in rw e refl in
      Idle-Quiet r idle (quiet (Effect-run shut)) run (λ j. spared w j shut run (λ same. same))
  Idle-flush (tidy_open b d m e sound at stands free h) wait run idle =
      let done = Effect-flush sound (Live-open at stands) r e wait in
      Idle-Quiet r idle (quiet done) run (λ j. spared w j done.runs run (none_made.flush j _ _ _))

  Idle-get_property :
      Tidy base r w
      → (name : String) {a : Option String} → get_property r name w ≡ ok a v
      → Idle r w
      → Idle r v
  Idle-get_property (tidy_closed e sound h) name run idle =
      let shut : get_property r name w ≡ ok (none) w = unfold get_property in rw e refl in
      Idle-Quiet r idle (quiet (Effect-run shut)) run (λ j. spared w j shut run (λ same. same))
  Idle-get_property (tidy_open b d m e sound at stands free h) name run idle =
      let done = Effect-get_property sound (Live-open at stands) r e name in
      Idle-Quiet r idle (quiet done) run (λ j. spared w j done.runs run (λ idle. idle))

module _ {S : System} where
  -- A closed object has no database.
  closed-Idle : (q : RocksDb) (u : World S) → q.handle ≡ none → Idle q u
  closed-Idle q u shut p transactional d base stands at = absurd (differ (sym stands ∙ shut))

module _ {S : System} {base : Ptr → Option (Cell S)} {r : RocksDb} {w : World S} where
  -- Closing an idle database is allowed.
  pub close-Idle :
      Tidy base r w
      → Idle r w
      → (q : RocksDb) × (v : World S) × (close r w ≡ ok q v) × (q.handle ≡ none)
  close-Idle (tidy_closed e sound h) idle = (_, _, close-closed r w e, e)
  close-Idle (tidy_open b d m e sound at stands free h) idle =
      (_, _, close-open r b d m at e ∙ chosen _ _ _ (idle _ b d m e at), refl)

  closed-handle :
      {q : RocksDb} {v : World S} → Tidy base r w → Idle r w → close r w ≡ ok q v → q.handle ≡ none
  closed-handle tidy idle run =
      let (p, u, runs, shut) = close-Idle tidy idle in
      ap (λ x. x.handle) (sym (same_answer (sym runs ∙ run))) ∙ shut

module _ {S : System} (none_made : MakesNoIterators S) {base : Ptr → Option (Cell S)} {r : RocksDb}
    {w : World S} (tidy : Tidy base r w) (idle : Idle r w) where
  -- After one more call the database, if it is still open, has no iterators.
  pub Idle-method :
      {q : RocksDb} {v : World S} (c : Call) {a : Answer c}
      → is_plain c ≡ true
      → method c r w ≡ ok (a, q) v
      → Idle q v
  unfolding method
  Idle-method {v} asking_open plain e =
      subst (λ x. Idle x v) (ap (λ y. y.1) (same_answer e)) (subst (Idle r) (same_world e) idle)
  Idle-method {q} {v} closing plain e = closed-Idle q v (closed-handle tidy idle (done-ok _ e))
  Idle-method {v} (writing_batch b o) plain e = absurd (ground (arith, plain))
  Idle-method {v} (beginning_transaction o) plain e = absurd (ground (arith, plain))
  Idle-method {v} (making_iterator o) plain e = absurd (ground (arith, plain))
  Idle-method {v} (putting value key o) plain e =
      let (runs, same) = beside-ok _ e in
      subst (λ x. Idle x v) same (Idle-put none_made tidy value key o runs idle)
  Idle-method {v} (getting key o) plain e =
      let (runs, same) = beside-ok _ e in
      subst (λ x. Idle x v) same (Idle-get none_made tidy key o runs idle)
  Idle-method {v} (deleting key o) plain e =
      let (runs, same) = beside-ok _ e in
      subst (λ x. Idle x v) same (Idle-delete none_made tidy key o runs idle)
  Idle-method {v} (testing key o) plain e =
      let (runs, same) = beside-ok _ e in
      subst (λ x. Idle x v) same (Idle-key_may_exist none_made tidy key o runs idle)
  Idle-method {v} (compacting start_key end_key) plain e =
      let (runs, same) = beside-ok _ e in
      subst (λ x. Idle x v) same (Idle-compact_range none_made tidy start_key end_key runs idle)
  Idle-method {v} (flushing wait) plain e =
      let (runs, same) = beside-ok _ e in
      subst (λ x. Idle x v) same (Idle-flush none_made tidy wait runs idle)
  Idle-method {v} (reporting name) plain e =
      let (runs, same) = beside-ok _ e in
      subst (λ x. Idle x v) same (Idle-get_property none_made tidy name runs idle)
