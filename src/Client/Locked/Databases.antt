-- ===== src/Client/Locked/Databases.antt =====
-- RocksDB.swift: the twelve members of the class that hold its lock, access by access.
pub mod Whole
use rock_db_swift.Prelude.{
  ◌≡◌, refl, ap, String, Bool, true, false, not, Option, none, some, Bytes, ◌==◌, if◌then◌else◌,
  is_some,
}
use rock_db_swift.Prelude.Int.{to_int}
use rock_db_swift.System.{System}
use rock_db_swift.Memory.{Ptr, World, M, pure, and_then}
use rock_db_swift.Bridge.Status.{StatusCode, CStatus}
use rock_db_swift.Bridge.AccessOptions.{rocksdb_read_options_destroy, rocksdb_write_options_destroy}
use rock_db_swift.Bridge.Database.{
  GetResult, rocksdb_close, rocksdb_put, rocksdb_get, rocksdb_delete, rocksdb_key_may_exist,
}
use rock_db_swift.Bridge.Batch.{rocksdb_write_batch}
use rock_db_swift.Bridge.Iterator.{rocksdb_iterator_create}
use rock_db_swift.Bridge.Transaction.{rocksdb_transaction_begin}
use rock_db_swift.Bridge.Maintenance.{rocksdb_compact_range, rocksdb_flush, rocksdb_get_property}
use rock_db_swift.Client.Error.{
  RocksDbError, not_supported, database_closed, Throws, returned, threw, has_code, free_message,
  check,
}
use rock_db_swift.Client.AccessOptions.{
  RocksDbReadOptions, RocksDbWriteOptions, create_read_handle, create_write_handle,
}
use rock_db_swift.Client.Database
use rock_db_swift.Client.Database.{RocksDb, is_open, copied_value}
use rock_db_swift.Client.Batch.{RocksDbBatch, write_batch}
use rock_db_swift.Client.Iterator.{RocksDbIterator, handed_iterator, make_iterator}
use rock_db_swift.Client.Transaction.{RocksDbTransaction, handed_transaction, begin_transaction}
use rock_db_swift.Client.Maintenance.{copied_text, compact_range, flush, get_property}
use rock_db_swift.Client.Locked.{
  Script, ends, acts, reads, sets, beside, does, ◌>>=◌, ◌>>◌, with_handle, guarded, whole,
}
use rock_db_swift.Client.Locked.Ends.{get_end}

-- The members, with their arguments.
pub data Call : Type 0 where
  asking_open : Call
  closing : Call
  putting : (value key : Bytes) (o : RocksDbWriteOptions) → Call
  getting : (key : Bytes) (o : RocksDbReadOptions) → Call
  deleting : (key : Bytes) (o : RocksDbWriteOptions) → Call
  testing : (key : Bytes) (o : RocksDbReadOptions) → Call
  writing_batch : (b : RocksDbBatch) (o : RocksDbWriteOptions) → Call
  beginning_transaction : (o : RocksDbWriteOptions) → Call
  making_iterator : (o : RocksDbReadOptions) → Call
  compacting : (start_key end_key : Option Bytes) → Call
  flushing : (wait : Bool) → Call
  reporting : (name : String) → Call

-- Whether the member is `lock.withLock { … }`.
unfoldable pub takes_lock : Call → Bool
takes_lock asking_open = true
takes_lock closing = true
takes_lock (putting value key o) = true
takes_lock (getting key o) = true
takes_lock (deleting key o) = true
takes_lock (testing key o) = true
takes_lock (writing_batch b o) = true
takes_lock (beginning_transaction o) = true
takes_lock (making_iterator o) = true
takes_lock (compacting start_key end_key) = true
takes_lock (flushing wait) = true
takes_lock (reporting name) = true

pub takes_lock-always : (c : Call) → takes_lock c ≡ true
unfolding takes_lock
takes_lock-always asking_open = refl
takes_lock-always closing = refl
takes_lock-always (putting value key o) = refl
takes_lock-always (getting key o) = refl
takes_lock-always (deleting key o) = refl
takes_lock-always (testing key o) = refl
takes_lock-always (writing_batch b o) = refl
takes_lock-always (beginning_transaction o) = refl
takes_lock-always (making_iterator o) = refl
takes_lock-always (compacting start_key end_key) = refl
takes_lock-always (flushing wait) = refl
takes_lock-always (reporting name) = refl

abbrev pub Answer : Call → Type 0
Answer asking_open = Bool
Answer closing = Unit {0}
Answer (putting value key o) = Throws (Unit {0})
Answer (getting key o) = Throws (Option Bytes)
Answer (deleting key o) = Throws (Unit {0})
Answer (testing key o) = Bool
Answer (writing_batch b o) = Throws (Unit {0})
Answer (beginning_transaction o) = Throws RocksDbTransaction
Answer (making_iterator o) = Throws RocksDbIterator
Answer (compacting start_key end_key) = Throws (Unit {0})
Answer (flushing wait) = Throws (Unit {0})
Answer (reporting name) = Option String

abbrev pub Body : System → Type 0 → Type 1
Body S A = Script S RocksDb A

abbrev handle : RocksDb → Option Ptr
handle r = r.handle

module _ {S : System} where
  -- The whole methods.
  unfoldable pub method : (c : Call) → RocksDb → M S (Answer c × RocksDb)
  method asking_open r = pure (is_open r, r)
  method closing r = λ w. and_then (Database.close r w) λ q. pure (tt, q)
  method (putting value key o) r = beside (Database.put r value key o) r
  method (getting key o) r = beside (Database.get r key o) r
  method (deleting key o) r = beside (Database.delete r key o) r
  method (testing key o) r = beside (Database.key_may_exist r key o) r
  method (writing_batch b o) r = beside (write_batch r b o) r
  method (beginning_transaction o) r = beside (begin_transaction r o) r
  method (making_iterator o) r = beside (make_iterator r o) r
  method (compacting start_key end_key) r = beside (compact_range r start_key end_key) r
  method (flushing wait) r = beside (flush r wait) r
  method (reporting name) r = beside (get_property r name) r

  unfoldable pub close_body : Body S (Unit {0})
  close_body =
      guarded handle tt λ h. do does (rocksdb_close h); sets λ r. record r { handle = none }

  unfoldable pub put_body : Bytes → Bytes → RocksDbWriteOptions → Body S (Throws (Unit {0}))
  put_body value key o = guarded handle (threw database_closed) λ h.
      with_handle (create_write_handle o) rocksdb_write_options_destroy
        λ opts. do status ← does (rocksdb_put h opts key value); does (check status)

  unfoldable pub get_body : Bytes → RocksDbReadOptions → Body S (Throws (Option Bytes))
  get_body key o = guarded handle (threw database_closed) λ h.
      with_handle (create_read_handle o) rocksdb_read_options_destroy
        λ opts. do result ← does (rocksdb_get h opts key); get_end result

  unfoldable pub delete_body : Bytes → RocksDbWriteOptions → Body S (Throws (Unit {0}))
  delete_body key o = guarded handle (threw database_closed) λ h.
      with_handle (create_write_handle o) rocksdb_write_options_destroy
        λ opts. do status ← does (rocksdb_delete h opts key); does (check status)

  unfoldable pub key_may_exist_body : Bytes → RocksDbReadOptions → Body S Bool
  key_may_exist_body key o = guarded handle false λ h.
      with_handle (create_read_handle o) rocksdb_read_options_destroy
        λ opts. do found ← does (rocksdb_key_may_exist h opts key); ends (not (found == 0))

  unfoldable pub write_batch_body : RocksDbBatch → RocksDbWriteOptions → Body S (Throws (Unit {0}))
  write_batch_body b o = guarded handle (threw database_closed) λ h.
      with_handle (create_write_handle o) rocksdb_write_options_destroy
        λ opts. do status ← does (rocksdb_write_batch h opts b.handle); does (check status)

  unfoldable pub begin_transaction_body : RocksDbWriteOptions → Body S (Throws RocksDbTransaction)
  begin_transaction_body o = guarded handle (threw database_closed) λ h. do
    transactional ← reads λ r. r.is_transactional
    if not transactional
        then ends (threw (not_supported "Database not opened with transaction support"))
        else with_handle (create_write_handle o) rocksdb_write_options_destroy
            λ opts. do p ← does (rocksdb_transaction_begin h opts); does (handed_transaction p)

  unfoldable pub make_iterator_body : RocksDbReadOptions → Body S (Throws RocksDbIterator)
  make_iterator_body o = guarded handle (threw database_closed) λ h.
      with_handle (create_read_handle o) rocksdb_read_options_destroy λ opts. do
        p ← does (rocksdb_iterator_create h opts)
        does (handed_iterator "Failed to create iterator" p)

  unfoldable pub compact_range_body : Option Bytes → Option Bytes → Body S (Throws (Unit {0}))
  compact_range_body start_key end_key =
      guarded handle (threw database_closed)
        λ h. do status ← does (rocksdb_compact_range h start_key end_key); does (check status)

  unfoldable pub flush_body : Bool → Body S (Throws (Unit {0}))
  flush_body wait =
      guarded handle (threw database_closed)
        λ h. do status ← does (rocksdb_flush h (to_int wait)); does (check status)

  unfoldable pub get_property_body : String → Body S (Option String)
  get_property_body name =
      guarded handle none λ h. do p ← does (rocksdb_get_property h name); does (copied_text p)

  unfoldable pub body : (c : Call) → Body S (Answer c)
  body asking_open = reads is_open
  body closing = close_body
  body (putting value key o) = put_body value key o
  body (getting key o) = get_body key o
  body (deleting key o) = delete_body key o
  body (testing key o) = key_may_exist_body key o
  body (writing_batch b o) = write_batch_body b o
  body (beginning_transaction o) = begin_transaction_body o
  body (making_iterator o) = make_iterator_body o
  body (compacting start_key end_key) = compact_range_body start_key end_key
  body (flushing wait) = flush_body wait
  body (reporting name) = get_property_body name
