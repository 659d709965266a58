-- ===== src/Bridge/Header/Guards.antt =====
-- The guards of RocksDBBridge.h against null handles, as laws of the interface.
use rock_db_swift.Prelude.{ℕ, String, ◌≡◌, Option, none, Bytes, List}
use rock_db_swift.Prelude.Int.{ℤ}
use rock_db_swift.System.{System}
use rock_db_swift.Memory.{Ptr, null, World, ok}
use rock_db_swift.Bridge.Database.Live.{Live}
use rock_db_swift.Bridge.Header.{Header}
use rock_db_swift.Bridge.Header.Nulls.{
  NoDb, NoIterator, NoTransaction, Refused, invalid_argument, no_value,
}

-- What the header promises of null and of handles behind which there is no object: the functions
-- that free do nothing with null, those that answer without a status give null, 0 or nothing, and
-- those that report a status refuse. The functions that set options and those that open do not
-- guard.
pub record IsNullSafe {S : System} (h : Header S) (w : World S) : Type 0 where
  pub free_string : h.memory.rocksdb_free_string null w ≡ ok tt w
  pub free_data : h.memory.rocksdb_free_data null w ≡ ok tt w
  pub options_destroy : h.options.rocksdb_options_destroy null w ≡ ok tt w
  pub read_options_destroy : h.read_options.rocksdb_read_options_destroy null w ≡ ok tt w
  pub write_options_destroy : h.write_options.rocksdb_write_options_destroy null w ≡ ok tt w
  pub close : h.databases.rocksdb_close null w ≡ ok tt w
  pub is_transactional : h.databases.rocksdb_is_transactional null w ≡ ok 0 w
  pub put :
      {p : Ptr}
      → NoDb w p
      → (opts : Ptr) (key value : Bytes)
      → Refused w "Database is null" invalid_argument (h.key_value.rocksdb_put p opts key value w)
  pub get :
      {p : Ptr}
      → NoDb w p
      → (opts : Ptr) (key : Bytes)
      → Refused w "Database is null" no_value (h.key_value.rocksdb_get p opts key w)
  pub delete :
      {p : Ptr}
      → NoDb w p
      → (opts : Ptr) (key : Bytes)
      → Refused w "Database is null" invalid_argument (h.key_value.rocksdb_delete p opts key w)
  pub key_may_exist :
      {p : Ptr}
      → NoDb w p
      → (opts : Ptr) (key : Bytes) → h.key_value.rocksdb_key_may_exist p opts key w ≡ ok 0 w
  pub batch_destroy : h.batches.rocksdb_batch_destroy null w ≡ ok tt w
  pub batch_put : (key value : Bytes) → h.batches.rocksdb_batch_put null key value w ≡ ok tt w
  pub batch_delete : (key : Bytes) → h.batches.rocksdb_batch_delete null key w ≡ ok tt w
  pub batch_delete_range :
      (start_key end_key : Bytes)
      → h.batches.rocksdb_batch_delete_range null start_key end_key w ≡ ok tt w
  pub batch_clear : h.batches.rocksdb_batch_clear null w ≡ ok tt w
  pub batch_count : h.batches.rocksdb_batch_count null w ≡ ok 0 w
  pub batch_data_size : h.batches.rocksdb_batch_data_size null w ≡ ok 0 w
  pub write_batch :
      {p : Ptr}
      → NoDb w p
      → (opts batch : Ptr)
      → Refused w "Database or batch is null" invalid_argument
          (h.batches.rocksdb_write_batch p opts batch w)
  pub write_no_batch :
      {p : Ptr} {d : ℕ}
      → Live w p d
      → (opts : Ptr)
      → Refused w "Database or batch is null" invalid_argument
          (h.batches.rocksdb_write_batch p opts null w)
  pub iterator_create :
      {p : Ptr} → NoDb w p → (opts : Ptr) → h.iterators.rocksdb_iterator_create p opts w ≡ ok null w
  pub iterator_destroy : h.iterators.rocksdb_iterator_destroy null w ≡ ok tt w
  pub iterator_valid : {p : Ptr} → NoIterator w p → h.iterators.rocksdb_iterator_valid p w ≡ ok 0 w
  pub seek_to_first :
      {p : Ptr} → NoIterator w p → h.iterators.rocksdb_iterator_seek_to_first p w ≡ ok tt w
  pub seek_to_last :
      {p : Ptr} → NoIterator w p → h.iterators.rocksdb_iterator_seek_to_last p w ≡ ok tt w
  pub seek :
      {p : Ptr}
      → NoIterator w p
      → (key : Bytes) → h.iterators.rocksdb_iterator_seek p key w ≡ ok tt w
  pub seek_for_prev :
      {p : Ptr}
      → NoIterator w p
      → (key : Bytes) → h.iterators.rocksdb_iterator_seek_for_prev p key w ≡ ok tt w
  pub next : {p : Ptr} → NoIterator w p → h.iterators.rocksdb_iterator_next p w ≡ ok tt w
  pub prev : {p : Ptr} → NoIterator w p → h.iterators.rocksdb_iterator_prev p w ≡ ok tt w
  pub key : {p : Ptr} → NoIterator w p → h.iterators.rocksdb_iterator_key p w ≡ ok none w
  pub value : {p : Ptr} → NoIterator w p → h.iterators.rocksdb_iterator_value p w ≡ ok none w
  pub iterator_status :
      {p : Ptr}
      → NoIterator w p
      → Refused w "Iterator is null" invalid_argument (h.iterators.rocksdb_iterator_status p w)
  pub transaction_begin :
      (opts : Ptr) → h.transactions.rocksdb_transaction_begin null opts w ≡ ok null w
  pub transaction_destroy : h.transactions.rocksdb_transaction_destroy null w ≡ ok tt w
  pub transaction_put :
      {p : Ptr}
      → NoTransaction w p
      → (key value : Bytes)
      → Refused w "Transaction is null" invalid_argument
          (h.transactions.rocksdb_transaction_put p key value w)
  pub transaction_get :
      {p : Ptr}
      → NoTransaction w p
      → (opts : Ptr) (key : Bytes)
      → Refused w "Transaction is null" no_value
          (h.transactions.rocksdb_transaction_get p opts key w)
  pub transaction_get_for_update :
      {p : Ptr}
      → NoTransaction w p
      → (opts : Ptr) (key : Bytes)
      → Refused w "Transaction is null" no_value
          (h.transactions.rocksdb_transaction_get_for_update p opts key w)
  pub transaction_delete :
      {p : Ptr}
      → NoTransaction w p
      → (key : Bytes)
      → Refused w "Transaction is null" invalid_argument
          (h.transactions.rocksdb_transaction_delete p key w)
  pub transaction_create_iterator :
      {p : Ptr}
      → NoTransaction w p
      → (opts : Ptr) → h.transactions.rocksdb_transaction_create_iterator p opts w ≡ ok null w
  pub transaction_commit :
      {p : Ptr}
      → NoTransaction w p
      → Refused w "Transaction is null" invalid_argument
          (h.transactions.rocksdb_transaction_commit p w)
  pub transaction_rollback :
      {p : Ptr} → NoTransaction w p → h.transactions.rocksdb_transaction_rollback p w ≡ ok tt w
  pub set_savepoint :
      {p : Ptr} → NoTransaction w p → h.transactions.rocksdb_transaction_set_savepoint p w ≡ ok tt w
  pub rollback_to_savepoint :
      {p : Ptr}
      → NoTransaction w p
      → Refused w "Transaction is null" invalid_argument
          (h.transactions.rocksdb_transaction_rollback_to_savepoint p w)
  pub create_snapshot : {p : Ptr} → NoDb w p → h.snapshots.rocksdb_create_snapshot p w ≡ ok null w
  pub release_snapshot :
      {p : Ptr} → NoDb w p → h.snapshots.rocksdb_release_snapshot p null w ≡ ok tt w
  pub compact_range :
      {p : Ptr}
      → NoDb w p
      → (start_key end_key : Option Bytes)
      → Refused w "Database is null" invalid_argument
          (h.maintenance.rocksdb_compact_range p start_key end_key w)
  pub flush :
      {p : Ptr}
      → NoDb w p
      → (wait : ℕ)
      → Refused w "Database is null" invalid_argument (h.maintenance.rocksdb_flush p wait w)
  pub get_property :
      {p : Ptr}
      → NoDb w p
      → (property : String) → h.maintenance.rocksdb_get_property p property w ≡ ok null w
  pub get_approximate_sizes :
      {p : Ptr}
      → NoDb w p
      → (num_ranges : ℤ) (start_keys end_keys : List Bytes)
      → h.maintenance.rocksdb_get_approximate_sizes p num_ranges start_keys end_keys w ≡ ok none w
