-- ===== src/Client/Closed.antt =====
-- Operations of RocksDB.swift on a closed database.
use rock_db_swift.Prelude.{ℕ, String, Bool, false, Option, none, Bytes, ◌≡◌, refl}
use rock_db_swift.System.{System}
use rock_db_swift.Memory.{World, ok, M}
use rock_db_swift.Client.Error.{Throws, threw, database_closed}
use rock_db_swift.Client.AccessOptions.{RocksDbReadOptions, RocksDbWriteOptions}
use rock_db_swift.Client.Database.{RocksDb, put, get, delete, key_may_exist, close}
use rock_db_swift.Client.Maintenance.{compact_range, flush, get_property}
use rock_db_swift.Client.Batch.{RocksDbBatch, write_batch}
use rock_db_swift.Client.Iterator.{make_iterator}
use rock_db_swift.Client.Scan.{for_each, for_each_with_prefix}
use rock_db_swift.Client.Transaction.{begin_transaction}

abbrev pub closed : String → Bool → RocksDb
closed path b = record { handle = none; path = path; is_transactional = b }

module _ {S : System} where
  -- The command does nothing but fail with this error.
  abbrev pub Refuses : {A : Type 0} → World S → M S (Throws A) → Type 0
  Refuses w m = m w ≡ ok (threw database_closed) w

  -- The ten operations that throw fail, `keyMayExist` and `getProperty` find nothing, and `close`
  -- gives the same object.
  abbrev pub Refusals :
      RocksDb
      → RocksDbWriteOptions
      → RocksDbReadOptions
      → Bytes
      → Bytes
      → RocksDbBatch
      → Option Bytes
      → Option Bytes
      → Bool
      → String
      → ℕ
      → (Bytes → Bytes → M S (Throws Bool))
      → World S
      → Type 0
  Refusals r v o k x b start_key end_key wait name fuel body w =
      Refuses w (put r x k v)
      × Refuses w (get r k o)
      × Refuses w (delete r k v)
      × Refuses w (write_batch r b v)
      × Refuses w (compact_range r start_key end_key)
      × Refuses w (flush r wait)
      × Refuses w (make_iterator r o)
      × Refuses w (for_each fuel r body)
      × Refuses w (for_each_with_prefix fuel r k body)
      × Refuses w (begin_transaction r v)
      × (key_may_exist r k o w ≡ ok false w)
      × (get_property r name w ≡ ok none w)
      × (close r w ≡ ok r w)

  -- On a closed database `put`, `get`, `delete`, `writeBatch`, `compactRange`, `flush`,
  -- `makeIterator`, `forEach`, `forEachWithPrefix` and `beginTransaction` throw `databaseClosed`,
  -- whatever their arguments, in any world and without changing it; `keyMayExist` is false,
  -- `getProperty` of any name is nil, and closing again does nothing.
  pub closed_refuses :
      (path : String) (transactional : Bool) (v : RocksDbWriteOptions) (o : RocksDbReadOptions)
      (k x : Bytes) (b : RocksDbBatch) (start_key end_key : Option Bytes) (wait : Bool)
      (name : String) (fuel : ℕ) (body : Bytes → Bytes → M S (Throws Bool)) (w : World S)
      → Refusals (closed path transactional) v o k x b start_key end_key wait name fuel body w
  unfolding put get delete write_batch compact_range flush make_iterator for_each
      for_each_with_prefix begin_transaction key_may_exist get_property close
  closed_refuses path transactional v o k x b start_key end_key wait name fuel body w =
      (refl, refl, refl, refl, refl, refl, refl, refl, refl, refl, refl, refl, refl)
