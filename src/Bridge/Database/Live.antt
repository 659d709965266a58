-- ===== src/Bridge/Database/Live.antt =====
-- The key-value functions of the bridge on live handles.
use rock_db_swift.Prelude.{ℕ, ◌≡◌, some, Bytes}
use rock_db_swift.Prelude.Int.{to_int}
use rock_db_swift.System.{System, ReadOptions, WriteOptions}
use rock_db_swift.Memory.{Ptr, db, read_options, write_options, DbHandle, World, ok, load_db}
use rock_db_swift.Memory.Effects.{At, load-At, not_null}
use rock_db_swift.Bridge.Status.{make_status}
use rock_db_swift.Bridge.AccessOptions.{read_options_or_default, write_options_or_default}
use rock_db_swift.Bridge.Database.{
  live_db, rocksdb_put, rocksdb_get, rocksdb_delete, rocksdb_key_may_exist, finish_get,
}

module _ {S : System} {w : World S} {p : Ptr} where
  pub load_db-At : {h : DbHandle} → At w p (db h) → load_db p w ≡ ok h w
  unfolding load_db
  load_db-At at = rw (load-At at)

  pub live_db-At : {h : DbHandle} → At w p (db h) → live_db p w ≡ ok h.db w
  unfolding live_db load_db
  live_db-At at = rw (not_null at, load-At at)

  pub read_options-At :
      {o : ReadOptions} → At w p (read_options o) → read_options_or_default p w ≡ ok o w
  unfolding read_options_or_default
  read_options-At at = rw (not_null at, load-At at)

  pub write_options-At :
      {o : WriteOptions} → At w p (write_options o) → write_options_or_default p w ≡ ok o w
  unfolding write_options_or_default
  write_options-At at = rw (not_null at, load-At at)

-- An open database `d` behind the pointer.
pub record Live {S : System} (w : World S) (p : Ptr) (d : ℕ) : Type 0 where
  pub handle : DbHandle
  pub at : At w p (db handle)
  pub live : handle.db ≡ some d

module _ {S : System} {w : World S} {p : Ptr} {d : ℕ} where
  pub live_db-Live : Live w p d → live_db p w ≡ ok (some d) w
  live_db-Live l = rw (live_db-At l.at, l.live)

module _ {S : System} {w : World S} {p : Ptr} {d : ℕ} (live : Live w p d) {q : Ptr} where
  pub rocksdb_put-Live :
      {o : WriteOptions} (key value : Bytes)
      → At w q (write_options o)
      → let result = S.put d o key value w.engine in
        rocksdb_put p q key value w ≡ make_status result.0 (record w { engine = result.1 })
  unfolding rocksdb_put
  rocksdb_put-Live key value at = rw (live_db-Live live, write_options-At at)

  pub rocksdb_delete-Live :
      {o : WriteOptions} (key : Bytes)
      → At w q (write_options o)
      → let result = S.delete d o key w.engine in
        rocksdb_delete p q key w ≡ make_status result.0 (record w { engine = result.1 })
  unfolding rocksdb_delete
  rocksdb_delete-Live key at = rw (live_db-Live live, write_options-At at)

  pub rocksdb_get-Live :
      {o : ReadOptions} (key : Bytes)
      → At w q (read_options o)
      → let result = S.get d o key w.engine in
        rocksdb_get p q key w ≡ finish_get result.0.0 result.0.1 (record w { engine = result.1 })
  unfolding rocksdb_get
  rocksdb_get-Live key at = rw (live_db-Live live, read_options-At at)

  pub rocksdb_key_may_exist-Live :
      {o : ReadOptions} (key : Bytes)
      → At w q (read_options o)
      → let result = S.key_may_exist d o key w.engine in
        rocksdb_key_may_exist p q key w ≡ ok (to_int result.0) (record w { engine = result.1 })
  unfolding rocksdb_key_may_exist
  rocksdb_key_may_exist-Live key at = rw (live_db-Live live, read_options-At at)
