-- ===== src/Client/Locked/Transactions/Whole.antt =====
-- The members of RocksDBTransaction.swift that hold the lock, access by access, are the methods.
use rock_db_swift.Prelude.{
  ◌≡◌, refl, ◌∙◌, Bool, true, false, ◌||◌, Option, none, some, if◌then◌else◌,
}
use rock_db_swift.System.{System}
use rock_db_swift.Memory.{Ptr, World, M, pure, and_then}
use rock_db_swift.Bridge.Status.{StatusCode, CStatus}
use rock_db_swift.Bridge.AccessOptions.{rocksdb_read_options_destroy}
use rock_db_swift.Bridge.Transaction.{
  rocksdb_transaction_create_iterator, rocksdb_transaction_get, rocksdb_transaction_get_for_update,
  rocksdb_transaction_put, rocksdb_transaction_delete, rocksdb_transaction_commit,
  rocksdb_transaction_rollback, rocksdb_transaction_set_savepoint,
  rocksdb_transaction_rollback_to_savepoint,
}
use rock_db_swift.Client.Error.{Throws, returned, threw, has_code, message_or, free_message, check}
use rock_db_swift.Client.AccessOptions.{create_read_handle}
use rock_db_swift.Client.Transaction
use rock_db_swift.Client.Transaction.{RocksDbTransaction, finish_commit, settle, on_open}
use rock_db_swift.Client.Locked.{
  ends, sets, does, ◌>>=◌, ◌>>◌, whole, and_then-and_then, and_then-cong, does-Is, bind-Is,
  with_handle-Is, guarded-found, guarded-beside, whole-closing,
}
use rock_db_swift.Client.Locked.Ends.{checked, checked_call-Is, get_end-Is}
use rock_db_swift.Client.Locked.Threads.{Class}
use rock_db_swift.Client.Locked.Transactions.{
  takes_lock, takes_lock-always, Call, destroying, getting, getting_for_update, putting, deleting,
  making_iterator, committing, rolling_back, setting_savepoint, rolling_back_to_savepoint, Answer,
  Body, handle, closed, method, commit_end, body,
}

module _ {S : System} where
  whole-branch :
      {A : Type 0} (b : Bool) (first second : Body S A) (m n : M S (A × RocksDbTransaction))
      (t : RocksDbTransaction) (w : World S)
      → whole first t w ≡ m w
      → whole second t w ≡ n w
      → whole (if b then first else second) t w ≡ (if b then m else n) w
  whole-branch true first second m n t w x y = x
  whole-branch false first second m n t w x y = y

  whole-commit_end :
      (status : CStatus) (t : RocksDbTransaction) (w : World S)
      → whole (commit_end status) t w ≡ finish_commit t status w
  unfolding commit_end finish_commit checked whole ◌>>=◌
  whole-commit_end status t w =
      whole-branch (has_code status StatusCode.busy || has_code status StatusCode.try_again) _ _ _ _
        t w
        (and_then-and_then (message_or "Transaction conflict" status.message w) _ _
          ∙ and_then-cong (message_or "Transaction conflict" status.message w)
              (λ message u. and_then-and_then (free_message status u) _ _))
        (and_then-and_then (check status w) _ _ ∙ and_then-cong (check status w) rest)
    where
      rest :
          (c : Throws (Unit {0})) (u : World S)
          → whole
              (elim c as (λ x. Body S (Throws (Unit {0}))) [
                | returned x ↦ do sets λ t. record t { committed = true }; ends (returned tt)
                | threw e ↦ ends (threw e)
              ])
              t
              u
            ≡ settle t c u
      rest (returned x) u = refl
      rest (threw e) u = refl

  whole-committing :
      (t : RocksDbTransaction) (w : World S) → whole (body committing) t w ≡ method committing t w
  unfolding body method Transaction.commit whole ◌>>=◌
  whole-committing t w = guarded-found handle _ _ t w t.handle refl ∙ cases t.handle
    where
      cases :
          (found : Option Ptr)
          → whole
              (elim found as (λ x. Body S (Throws (Unit {0}))) [
                | none ↦ ends (threw closed)
                | some h ↦ do status ← does (rocksdb_transaction_commit h); commit_end status
              ])
              t
              w
            ≡ elim found as (λ x. M S (Throws (Unit {0}) × RocksDbTransaction)) [
              | none ↦ pure (threw closed, t)
              | some h ↦ λ u. and_then (rocksdb_transaction_commit h u) (finish_commit t)
            ]
                w
      cases none = refl
      cases (some h) =
          and_then-and_then (rocksdb_transaction_commit h w) _ _
          ∙ and_then-cong (rocksdb_transaction_commit h w) (λ status. whole-commit_end status t)

  pub whole-body :
      (c : Call) (t : RocksDbTransaction) (w : World S) → whole (body c) t w ≡ method c t w
  unfolding body method on_open Transaction.destroy Transaction.get Transaction.get_for_update
      Transaction.put Transaction.delete Transaction.make_iterator Transaction.commit
      Transaction.rollback Transaction.set_savepoint Transaction.rollback_to_savepoint
  whole-body destroying t w = whole-closing handle _ _ t w
  whole-body (getting key o) t w = guarded-beside handle _ _ t w _ λ h.
      (with_handle-Is (create_read_handle o) rocksdb_read_options_destroy
          λ opts. bind-Is (does-Is (rocksdb_transaction_get h opts key)) get_end-Is).runs
        t w
  whole-body (getting_for_update key o) t w = guarded-beside handle _ _ t w _ λ h.
      (with_handle-Is (create_read_handle o) rocksdb_read_options_destroy
          λ opts. bind-Is (does-Is (rocksdb_transaction_get_for_update h opts key)) get_end-Is).runs
        t w
  whole-body (putting value key) t w =
      guarded-beside handle _ _ t w _
        λ h. (checked_call-Is (rocksdb_transaction_put h key value)).runs t w
  whole-body (deleting key) t w =
      guarded-beside handle _ _ t w _
        λ h. (checked_call-Is (rocksdb_transaction_delete h key)).runs t w
  whole-body (making_iterator o) t w = guarded-beside handle _ _ t w _ λ h.
      (with_handle-Is (create_read_handle o) rocksdb_read_options_destroy λ opts.
          bind-Is (does-Is (rocksdb_transaction_create_iterator h opts)) λ p. does-Is _).runs
        t w
  whole-body committing t w = whole-committing t w
  whole-body rolling_back t w =
      guarded-beside handle _ _ t w _ λ h. (does-Is (rocksdb_transaction_rollback h)).runs t w
  whole-body setting_savepoint t w =
      guarded-beside handle _ _ t w _ λ h. (does-Is (rocksdb_transaction_set_savepoint h)).runs t w
  whole-body rolling_back_to_savepoint t w =
      guarded-beside handle _ _ t w _
        λ h. (checked_call-Is (rocksdb_transaction_rollback_to_savepoint h)).runs t w

-- RocksDBTransaction.swift as a class with a lock.
abbrev pub transaction_class : (S : System) → Class S
transaction_class S = record {
  Object = RocksDbTransaction;
  Call = Call;
  Answer = Answer;
  method = method;
  body = body;
  takes_lock = takes_lock;
  always_locked = takes_lock-always;
  body_method = whole-body;
}
