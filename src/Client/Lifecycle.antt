-- ===== src/Client/Lifecycle.antt =====
-- The life of a `RocksDB` object: the methods of RocksDB.swift as steps between states, which are
-- the object and the world. Only a step that returns or throws is one.
pub mod Quiet
pub mod Openings
pub mod Tidy
pub mod Reached
use rock_db_swift.Prelude.{◌≡◌, Bool, Option, none, String, Bytes}
use rock_db_swift.System.{System}
use rock_db_swift.Memory.{World, ok}
use rock_db_swift.Client.Error.{Throws, returned, threw}
use rock_db_swift.Client.Options.{RocksDbOptions}
use rock_db_swift.Client.AccessOptions.{RocksDbReadOptions, RocksDbWriteOptions}
use rock_db_swift.Client.Database.{
  RocksDb, open_at, open_read_only, open_with_transactions, close, put, get, delete, key_may_exist,
}
use rock_db_swift.Client.Maintenance.{compact_range, flush, get_property}

-- The caller's variable after `try RocksDB.open(…)`, which keeps its old value if that throws.
abbrev pub kept : Throws RocksDb → RocksDb → RocksDb
kept (returned r) old = r
kept (threw e) old = old

module _ {S : System} where
  pub data Step : RocksDb → World S → RocksDb → World S → Type 0 where
    open_step :
        {r : RocksDb} {w v : World S} (path : String) (o : RocksDbOptions) {a : Throws RocksDb}
        → r.handle ≡ none
        → open_at path o w ≡ ok a v
        → Step r w (kept a r) v
    open_read_only_step :
        {r : RocksDb} {w v : World S} (path : String) (o : RocksDbOptions) (refuse_wal : Bool)
        {a : Throws RocksDb}
        → r.handle ≡ none
        → open_read_only path o refuse_wal w ≡ ok a v
        → Step r w (kept a r) v
    open_with_transactions_step :
        {r : RocksDb} {w v : World S} (path : String) (o : RocksDbOptions) {a : Throws RocksDb}
        → r.handle ≡ none
        → open_with_transactions path o w ≡ ok a v
        → Step r w (kept a r) v
    close_step : {r q : RocksDb} {w v : World S} → close r w ≡ ok q v → Step r w q v
    put_step :
        {r : RocksDb} {w v : World S} (value key : Bytes) (o : RocksDbWriteOptions)
        {a : Throws (Unit {0})}
        → put r value key o w ≡ ok a v
        → Step r w r v
    get_step :
        {r : RocksDb} {w v : World S} (key : Bytes) (o : RocksDbReadOptions)
        {a : Throws (Option Bytes)}
        → get r key o w ≡ ok a v
        → Step r w r v
    delete_step :
        {r : RocksDb} {w v : World S} (key : Bytes) (o : RocksDbWriteOptions)
        {a : Throws (Unit {0})}
        → delete r key o w ≡ ok a v
        → Step r w r v
    key_may_exist_step :
        {r : RocksDb} {w v : World S} (key : Bytes) (o : RocksDbReadOptions) {a : Bool}
        → key_may_exist r key o w ≡ ok a v
        → Step r w r v
    flush_step :
        {r : RocksDb} {w v : World S} (wait : Bool) {a : Throws (Unit {0})}
        → flush r wait w ≡ ok a v
        → Step r w r v
    compact_range_step :
        {r : RocksDb} {w v : World S} (start_key end_key : Option Bytes) {a : Throws (Unit {0})}
        → compact_range r start_key end_key w ≡ ok a v
        → Step r w r v
    get_property_step :
        {r : RocksDb} {w v : World S} (name : String) {a : Option String}
        → get_property r name w ≡ ok a v
        → Step r w r v

  -- Any number of steps.
  pub data Steps : RocksDb → World S → RocksDb → World S → Type 0 where
    done : {r : RocksDb} {w : World S} → Steps r w r w
    then_step : {r q p : RocksDb} {w v u : World S} → Steps r w q v → Step q v p u → Steps r w p u
