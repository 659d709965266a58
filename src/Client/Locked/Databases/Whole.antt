-- ===== src/Client/Locked/Databases/Whole.antt =====
-- The members of RocksDB.swift that hold the lock, access by access, are the methods.
use rock_db_swift.Prelude.{◌≡◌, refl, not, Option, if◌then◌else◌}
use rock_db_swift.Prelude.Int.{to_int}
use rock_db_swift.System.{System}
use rock_db_swift.Memory.{Ptr, World, M}
use rock_db_swift.Bridge.AccessOptions.{rocksdb_read_options_destroy, rocksdb_write_options_destroy}
use rock_db_swift.Bridge.Iterator.{rocksdb_iterator_create}
use rock_db_swift.Bridge.Transaction.{rocksdb_transaction_begin}
use rock_db_swift.Bridge.Maintenance.{rocksdb_compact_range, rocksdb_flush, rocksdb_get_property}
use rock_db_swift.Client.AccessOptions.{create_read_handle, create_write_handle}
use rock_db_swift.Client.Database
use rock_db_swift.Client.Database.{RocksDb, finish_value, copied_value, resume}
use rock_db_swift.Client.Batch.{write_batch}
use rock_db_swift.Client.Iterator.{make_iterator}
use rock_db_swift.Client.Transaction.{begin_transaction}
use rock_db_swift.Client.Maintenance.{compact_range, flush, get_property}
use rock_db_swift.Client.Locked.{
  reads, beside, ◌>>=◌, whole, Is, ends-Is, does-Is, bind-Is, with_handle-Is, branch-Is,
  guarded-beside, whole-closing,
}
use rock_db_swift.Client.Locked.Ends.{checked_call-Is, get_end-Is}
use rock_db_swift.Client.Locked.Threads.{Class}
use rock_db_swift.Client.Locked.Databases.{
  takes_lock, takes_lock-always, Call, asking_open, closing, putting, getting, deleting, testing,
  writing_batch, beginning_transaction, making_iterator, compacting, flushing, reporting, Answer,
  Body, method, close_body, put_body, get_body, delete_body, key_may_exist_body, write_batch_body,
  begin_transaction_body, make_iterator_body, compact_range_body, flush_body, get_property_body,
  body,
}

abbrev handle : RocksDb → Option Ptr
handle r = r.handle

module _ {S : System} where
  -- A test of the field that never changes.
  tested-beside :
      {A : Type 0} {refusal rest : Body S A} {m n : M S A} (r : RocksDb) (w : World S)
      → Is refusal m
      → Is rest n
      → whole (reads (λ r. r.is_transactional) >>= λ b. if not b then refusal else rest) r w
        ≡ beside (if not r.is_transactional then m else n) r w
  unfolding whole ◌>>=◌
  tested-beside r w first second = (branch-Is (not r.is_transactional) first second).runs r w

  whole-close_body : (r : RocksDb) (w : World S) → whole (body closing) r w ≡ method closing r w
  unfolding body method close_body Database.close
  whole-close_body r w = whole-closing handle _ _ r w

  whole-asking : (r : RocksDb) (w : World S) → whole (body asking_open) r w ≡ method asking_open r w
  unfolding body method whole
  whole-asking r w = refl

  pub whole-body : (c : Call) (r : RocksDb) (w : World S) → whole (body c) r w ≡ method c r w
  unfolding body method put_body get_body delete_body key_may_exist_body write_batch_body
      begin_transaction_body make_iterator_body compact_range_body flush_body get_property_body
      Database.close Database.put Database.get Database.delete Database.key_may_exist write_batch
      begin_transaction make_iterator compact_range flush get_property
  whole-body asking_open r w = whole-asking r w
  whole-body closing r w = whole-close_body r w
  whole-body (putting value key o) r w = guarded-beside handle _ _ r w _ λ h.
      (with_handle-Is (create_write_handle o) rocksdb_write_options_destroy
          λ opts. checked_call-Is _).runs
        r w
  whole-body (getting key o) r w = guarded-beside handle _ _ r w _ λ h.
      (with_handle-Is (create_read_handle o) rocksdb_read_options_destroy
          λ opts. bind-Is (does-Is _) get_end-Is).runs
        r w
  whole-body (deleting key o) r w = guarded-beside handle _ _ r w _ λ h.
      (with_handle-Is (create_write_handle o) rocksdb_write_options_destroy
          λ opts. checked_call-Is _).runs
        r w
  whole-body (testing key o) r w = guarded-beside handle _ _ r w _ λ h.
      (with_handle-Is (create_read_handle o) rocksdb_read_options_destroy
          λ opts. bind-Is (does-Is _) λ found. ends-Is _).runs
        r w
  whole-body (writing_batch b o) r w = guarded-beside handle _ _ r w _ λ h.
      (with_handle-Is (create_write_handle o) rocksdb_write_options_destroy
          λ opts. checked_call-Is _).runs
        r w
  whole-body (beginning_transaction o) r w = guarded-beside handle _ _ r w _ λ h.
      tested-beside r w (ends-Is _) (
        with_handle-Is (create_write_handle o) rocksdb_write_options_destroy
          λ opts. bind-Is (does-Is (rocksdb_transaction_begin h opts)) λ p. does-Is _)
  whole-body (making_iterator o) r w = guarded-beside handle _ _ r w _ λ h.
      (with_handle-Is (create_read_handle o) rocksdb_read_options_destroy
          λ opts. bind-Is (does-Is (rocksdb_iterator_create h opts)) λ p. does-Is _).runs
        r w
  whole-body (compacting start_key end_key) r w =
      guarded-beside handle _ _ r w _
        λ h. (checked_call-Is (rocksdb_compact_range h start_key end_key)).runs r w
  whole-body (flushing wait) r w =
      guarded-beside handle _ _ r w _
        λ h. (checked_call-Is (rocksdb_flush h (to_int wait))).runs r w
  whole-body (reporting name) r w =
      guarded-beside handle _ _ r w _
        λ h. (bind-Is (does-Is (rocksdb_get_property h name)) λ p. does-Is _).runs r w

-- RocksDB.swift as a class with a lock.
abbrev pub database_class : (S : System) → Class S
database_class S = record {
  Object = RocksDb;
  Call = Call;
  Answer = Answer;
  method = method;
  body = body;
  takes_lock = takes_lock;
  always_locked = takes_lock-always;
  body_method = whole-body;
}
