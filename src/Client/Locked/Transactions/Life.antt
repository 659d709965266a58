-- ===== src/Client/Locked/Transactions/Life.antt =====
-- The life of a `RocksDBTransaction` object that several threads use: a sequence of whole calls, as
-- the life of an object that one thread uses.
use rock_db_swift.Prelude.{ℕ, ◌≡◌, subst, Bool, true, false, Option, List, arith}
use rock_db_swift.System.{System}
use rock_db_swift.Memory.{Ptr, Cell, World, ok}
use rock_db_swift.Client.Transaction.{RocksDbTransaction}
use rock_db_swift.Client.Transact.Life.{
  TxnSteps, TxnTidy, done, then_step, put_step, delete_step, get_step, get_for_update_step,
  set_savepoint_step, rollback_to_savepoint_step, rollback_step, commit_step, destroy_step,
}
use rock_db_swift.Client.Transact.Life.Tidy.{TxnTidy-TxnSteps}
use rock_db_swift.Client.Locked.{beside-ok, done-ok}
use rock_db_swift.Client.Locked.Mutex.{RecursiveLock, IsRecursive}
use rock_db_swift.Client.Locked.Threads.{
  Class, restricted, Entry, Threads, Reach, Serial, nothing, next, depth,
}
use rock_db_swift.Client.Locked.Serialised.{Reach-Serial}
use rock_db_swift.Client.Locked.Transactions.{
  Call, destroying, getting, getting_for_update, putting, deleting, making_iterator, committing,
  rolling_back, setting_savepoint, rolling_back_to_savepoint, Answer, method,
}
use rock_db_swift.Client.Locked.Transactions.Whole.{transaction_class}

-- The calls that make no other object.
abbrev pub is_plain : Call → Bool
is_plain (making_iterator o) = false
is_plain _ = true

abbrev pub plain_transaction_class : (S : System) → Class S
plain_transaction_class S = restricted (transaction_class S) is_plain

module _ {S : System} {t : RocksDbTransaction} {w : World S} where
  moved : {q p : RocksDbTransaction} {u : World S} → q ≡ p → TxnSteps t w q u → TxnSteps t w p u
  moved {u} e steps = subst (λ x. TxnSteps t w x u) e steps

  -- One more call is one more step.
  TxnSteps-method :
      {q p : RocksDbTransaction} {v u : World S} (c : Call) {a : Answer c}
      → is_plain c ≡ true
      → TxnSteps t w q v
      → method c q v ≡ ok (a, p) u
      → TxnSteps t w p u
  unfolding method
  TxnSteps-method destroying plain steps e = then_step steps (destroy_step (done-ok _ e))
  TxnSteps-method (getting key o) plain steps e =
      let (runs, same) = beside-ok _ e in moved same (then_step steps (get_step key o runs))
  TxnSteps-method (getting_for_update key o) plain steps e =
      let (runs, same) = beside-ok _ e in
      moved same (then_step steps (get_for_update_step key o runs))
  TxnSteps-method (putting value key) plain steps e =
      let (runs, same) = beside-ok _ e in moved same (then_step steps (put_step value key runs))
  TxnSteps-method (deleting key) plain steps e =
      let (runs, same) = beside-ok _ e in moved same (then_step steps (delete_step key runs))
  TxnSteps-method (making_iterator o) plain steps e = absurd (ground (arith, plain))
  TxnSteps-method committing plain steps e = then_step steps (commit_step e)
  TxnSteps-method rolling_back plain steps e =
      let (runs, same) = beside-ok _ e in moved same (then_step steps (rollback_step runs))
  TxnSteps-method setting_savepoint plain steps e =
      let (runs, same) = beside-ok _ e in moved same (then_step steps (set_savepoint_step runs))
  TxnSteps-method rolling_back_to_savepoint plain steps e =
      let (runs, same) = beside-ok _ e in
      moved same (then_step steps (rollback_to_savepoint_step runs))

  Serial-TxnSteps :
      {es : List (Entry (plain_transaction_class S))} {q : RocksDbTransaction} {v : World S}
      → Serial (plain_transaction_class S) t w es q v
      → TxnSteps t w q v
  Serial-TxnSteps nothing = done
  Serial-TxnSteps (next i c a serial e) = TxnSteps-method c.0 c.1 (Serial-TxnSteps serial) e

module _ {S : System} {L : RecursiveLock} (rec : IsRecursive L) {base : Ptr → Option (Cell S)}
    {t : RocksDbTransaction} {w : World S} (tidy : TxnTidy base t w)
    {programs : ℕ → List (plain_transaction_class S).Call}
    {s : Threads (plain_transaction_class S) L} where
  -- Threads share a `RocksDBTransaction` object that is destroyed, where the heap is a given one,
  -- or live, where the heap has its handle besides, and call the methods that hold its lock, which
  -- behaves as documented, `makeIterator` aside; their accesses are interleaved in any order. In
  -- every state that they reach and in which none of them is in a method, what they have done is
  -- the life of an object that one thread uses, and the heap is again the given one, with the
  -- handle of the transaction if it is live.
  pub Reach-TxnTidy :
      Reach (plain_transaction_class S) L programs t w s
      → ((i : ℕ) → depth (plain_transaction_class S) (s.places i) ≡ 0)
      → TxnSteps t w s.object s.world × TxnTidy base s.object s.world
  Reach-TxnTidy reach out =
      let steps = Serial-TxnSteps (Reach-Serial rec reach out).0 in
      (steps, TxnTidy-TxnSteps tidy steps)
