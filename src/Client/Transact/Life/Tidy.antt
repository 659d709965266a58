-- ===== src/Client/Transact/Life/Tidy.antt =====
-- What stays true while a `RocksDBTransaction` object is used: the heap holds the transaction's handle
-- until it is destroyed, and nothing else that the object has left there.
use rock_db_swift.Prelude.{◌≤◌, ◌≡◌, refl, sym, ◌∙◌, ap, inl, inr, Bool, true, false, Option, Bytes}
use rock_db_swift.System.{System, Status}
use rock_db_swift.Memory.{Ptr, Cell, World, Run, ok}
use rock_db_swift.Memory.Effects.{IsSound-later, Effect-pure, Effect-call, same_answer, same_world}
use rock_db_swift.Memory.Creations.{restored, IsSound-removed}
use rock_db_swift.Bridge.Transaction.{rocksdb_transaction_set_savepoint}
use rock_db_swift.Client.Error.{Throws, threw, invalid_argument}
use rock_db_swift.Client.AccessOptions.{RocksDbReadOptions}
use rock_db_swift.Client.Lifecycle.Quiet.{Quiet, quiet, Quiet-pure}
use rock_db_swift.Client.Transaction.{
  RocksDbTransaction, put, get, get_for_update, delete, commit, rollback, set_savepoint,
  rollback_to_savepoint, destroy, release,
}
use rock_db_swift.Client.Transaction.Commits.{
  live_transaction-At, committed_as, committed_as-cases, Effect-commit,
}
use rock_db_swift.Client.Transaction.Edits.{
  Effect-txn_put, Effect-txn_delete, Effect-txn_get, Effect-get_for_update,
  Effect-rollback_to_savepoint,
}
use rock_db_swift.Client.Transact.Outcomes.{object, rollback-At, destroy-At, release-At}
use rock_db_swift.Client.Transact.Life.{
  TxnStep, TxnSteps, put_step, delete_step, get_step, get_for_update_step, set_savepoint_step,
  rollback_to_savepoint_step, rollback_step, commit_step, destroy_step, release_step, done,
  then_step, destroyed, TxnTidy, gone, held,
}

module _ {S : System} {base : Ptr → Option (Cell S)} {t : RocksDbTransaction} {w : World S} where
  TxnTidy-later :
      TxnTidy base t w
      → (n : Ptr) (s : S.State) → w.next ≤ n
      → TxnTidy base t (record w { next = n; engine = s })
  TxnTidy-later (gone b e sound h) n s le = gone b e (IsSound-later sound n s le) h
  TxnTidy-later (held b e sound at free h) n s le =
      held b e (IsSound-later sound n s le) (record { ne_null = at.ne_null; holds = at.holds }) free
        h

  -- A method that leaves the heap alone.
  TxnTidy-Quiet :
      {A : Type 0} {a : A} {v : World S} (run : Run S A)
      → TxnTidy base t w
      → Quiet w run
      → run ≡ ok a v
      → TxnTidy base t v
  TxnTidy-Quiet run tidy q e =
      rw (← same_world (sym q.effect.runs ∙ e))
        (TxnTidy-later tidy q.effect.after q.state q.effect.grows)

  Quiet-txn_put : TxnTidy base t w → (value key : Bytes) → Quiet w (put t value key w)
  Quiet-txn_put (gone b e sound h) value key = rw e (unfold put in Quiet-pure _)
  Quiet-txn_put (held b e sound at free h) value key =
      rw e (quiet (Effect-txn_put sound at b value key))

  Quiet-txn_delete : TxnTidy base t w → (key : Bytes) → Quiet w (delete t key w)
  Quiet-txn_delete (gone b e sound h) key = rw e (unfold delete in Quiet-pure _)
  Quiet-txn_delete (held b e sound at free h) key = rw e (quiet (Effect-txn_delete sound at b key))

  Quiet-txn_get :
      TxnTidy base t w → (key : Bytes) (o : RocksDbReadOptions) → Quiet w (get t key o w)
  Quiet-txn_get (gone b e sound h) key o = rw e (unfold get in Quiet-pure _)
  Quiet-txn_get (held b e sound at free h) key o = rw e (quiet (Effect-txn_get sound at b key o))

  Quiet-get_for_update :
      TxnTidy base t w → (key : Bytes) (o : RocksDbReadOptions) → Quiet w (get_for_update t key o w)
  Quiet-get_for_update (gone b e sound h) key o = rw e (unfold get_for_update in Quiet-pure _)
  Quiet-get_for_update (held b e sound at free h) key o =
      rw e (quiet (Effect-get_for_update sound at b key o))

  Quiet-rollback_to_savepoint : TxnTidy base t w → Quiet w (rollback_to_savepoint t w)
  Quiet-rollback_to_savepoint (gone b e sound h) =
      rw e (unfold rollback_to_savepoint in Quiet-pure _)
  Quiet-rollback_to_savepoint (held b e sound at free h) =
      rw e (quiet (Effect-rollback_to_savepoint sound at b))

  Quiet-rollback : TxnTidy base t w → Quiet w (rollback t w)
  Quiet-rollback (gone b e sound h) = rw e (unfold rollback in Quiet-pure _)
  Quiet-rollback (held b e sound at free h) =
      rw (e, rollback-At at b) (quiet (Effect-call (Effect-pure _ _)))

  Quiet-set_savepoint : TxnTidy base t w → Quiet w (set_savepoint t w)
  unfolding rocksdb_transaction_set_savepoint
  Quiet-set_savepoint (gone b e sound h) = rw e (unfold set_savepoint in Quiet-pure _)
  Quiet-set_savepoint (held b e sound at free h) =
      rw e (
        unfold set_savepoint in rw (live_transaction-At at) (quiet (Effect-call (Effect-pure _ _))))

module _ {S : System} (b : Bool) (w : World S) where
  commit-gone :
      commit (destroyed b) w ≡ ok (threw (invalid_argument "Transaction is closed"), destroyed b) w
  unfolding commit
  commit-gone = refl

  destroy-gone : destroy (destroyed b) w ≡ ok (destroyed b) w
  unfolding destroy
  destroy-gone = refl

release-gone : {S : System} (b : Bool) (w : World S) → release (destroyed b) w ≡ ok (destroyed b) w
unfolding release rollback destroy
release-gone true w = refl
release-gone false w = refl

committed-TxnTidy :
    {S : System} {base : Ptr → Option (Cell S)} (w : World S) (u : S.State) (s : Status) (p : Ptr)
    (b : Bool)
    → ((c : Bool) → TxnTidy base (object p c) w)
    → TxnTidy base (committed_as S u s (object p b)).1 w
committed-TxnTidy {S} w u s p b tidy = elim (committed_as-cases S u s) [
  | inl marked ↦ rw (marked (object p b)) (tidy true)
  | inr (e, kept) ↦ rw (kept (object p b)) (tidy b)
]

module _ {S : System} {base : Ptr → Option (Cell S)} {t : RocksDbTransaction} {w : World S} where
  TxnTidy-commit :
      {a : Throws (Unit {0}) × RocksDbTransaction} {v : World S}
      → TxnTidy base t w
      → commit t w ≡ ok a v
      → TxnTidy base a.1 v
  TxnTidy-commit (gone b e sound h) run =
      let e' = sym (commit-gone b w) ∙ ap (λ t. commit t w) (sym e) ∙ run in
      rw (← same_answer e', ← same_world e') (gone b refl sound h)
  TxnTidy-commit (held {p} {i} b e sound at free h) run =
      let x = Effect-commit sound at b in
      let e' = sym x.runs ∙ ap (λ t. commit t w) (sym e) ∙ run in
      rw (← same_answer e', ← same_world e')
        (committed-TxnTidy _ _ _ p b (λ c.
          TxnTidy-later (held c refl sound at free h) x.after (S.txn_commit i w.engine).1 x.grows))

  TxnTidy-destroy :
      {u : RocksDbTransaction} {v : World S}
      → TxnTidy base t w
      → destroy t w ≡ ok u v
      → TxnTidy base u v
  TxnTidy-destroy (gone b e sound h) run =
      let e' = sym (destroy-gone b w) ∙ ap (λ t. destroy t w) (sym e) ∙ run in
      rw (← same_answer e', ← same_world e') (gone b refl sound h)
  TxnTidy-destroy (held {p} b e sound at free h) run =
      let e' = sym (destroy-At at b) ∙ ap (λ t. destroy t w) (sym e) ∙ run in
      rw (← same_answer e', ← same_world e')
        (gone b refl (IsSound-removed w p _ sound) (restored base p _ _ free h))

  TxnTidy-release :
      {u : RocksDbTransaction} {v : World S}
      → TxnTidy base t w
      → release t w ≡ ok u v
      → TxnTidy base u v
  TxnTidy-release (gone b e sound h) run =
      let e' = sym (release-gone b w) ∙ ap (λ t. release t w) (sym e) ∙ run in
      rw (← same_answer e', ← same_world e') (gone b refl sound h)
  TxnTidy-release (held {p} b e sound at free h) run =
      let e' = sym (release-At at b) ∙ ap (λ t. release t w) (sym e) ∙ run in
      rw (← same_answer e', ← same_world e')
        (gone b refl (IsSound-removed w p _ sound) (restored base p _ _ free h))

module _ {S : System} {base : Ptr → Option (Cell S)} where
  TxnTidy-Step :
      {t u : RocksDbTransaction} {w v : World S}
      → TxnTidy base t w
      → TxnStep t w u v
      → TxnTidy base u v
  TxnTidy-Step tidy (put_step value key run) =
      TxnTidy-Quiet _ tidy (Quiet-txn_put tidy value key) run
  TxnTidy-Step tidy (delete_step key run) = TxnTidy-Quiet _ tidy (Quiet-txn_delete tidy key) run
  TxnTidy-Step tidy (get_step key o run) = TxnTidy-Quiet _ tidy (Quiet-txn_get tidy key o) run
  TxnTidy-Step tidy (get_for_update_step key o run) =
      TxnTidy-Quiet _ tidy (Quiet-get_for_update tidy key o) run
  TxnTidy-Step tidy (set_savepoint_step run) = TxnTidy-Quiet _ tidy (Quiet-set_savepoint tidy) run
  TxnTidy-Step tidy (rollback_to_savepoint_step run) =
      TxnTidy-Quiet _ tidy (Quiet-rollback_to_savepoint tidy) run
  TxnTidy-Step tidy (rollback_step run) = TxnTidy-Quiet _ tidy (Quiet-rollback tidy) run
  TxnTidy-Step tidy (commit_step run) = TxnTidy-commit tidy run
  TxnTidy-Step tidy (destroy_step run) = TxnTidy-destroy tidy run
  TxnTidy-Step tidy (release_step run) = TxnTidy-release tidy run

  -- From a state in which a transaction object is destroyed and the heap a given one, or the
  -- object is live and the heap has its handle besides, any number of calls of `put`, `delete`,
  -- `get`, `getForUpdate`, `setSavepoint`, `rollbackToSavepoint`, `rollback`, `commit`, `destroy`
  -- and `deinit`, each of which returns or throws, lead to such a state over the same heap.
  pub TxnTidy-TxnSteps :
      {t u : RocksDbTransaction} {w v : World S}
      → TxnTidy base t w
      → TxnSteps t w u v
      → TxnTidy base u v
  TxnTidy-TxnSteps tidy done = tidy
  TxnTidy-TxnSteps tidy (then_step steps step) = TxnTidy-Step (TxnTidy-TxnSteps tidy steps) step
