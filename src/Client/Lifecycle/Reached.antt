-- ===== src/Client/Lifecycle/Reached.antt =====
-- What the states are like that a `RocksDB` object can reach from a closed one.
use rock_db_swift.Prelude.{◌≡◌, refl, sym, ◌∙◌, Bool, Option, none, String, Bytes}
use rock_db_swift.System.{System}
use rock_db_swift.Memory.{World}
use rock_db_swift.Memory.Effects.{IsSound}
use rock_db_swift.Client.AccessOptions.{RocksDbReadOptions, RocksDbWriteOptions}
use rock_db_swift.Client.Database.{RocksDb, put, get, delete, key_may_exist}
use rock_db_swift.Client.Maintenance.{compact_range, flush, get_property}
use rock_db_swift.Client.Lifecycle.{Steps}
use rock_db_swift.Client.Lifecycle.Quiet.{
  Tidy, tidy_closed, tidy_open, Quiet, Quiet-put, Quiet-get, Quiet-delete, Quiet-key_may_exist,
  Quiet-flush, Quiet-compact_range, Quiet-get_property,
}
use rock_db_swift.Client.Lifecycle.Openings.{IsOpener, differ}
use rock_db_swift.Client.Lifecycle.Tidy.{Tidy-Steps}

-- Every method that neither opens nor closes has an answer and leaves the heap as it was.
pub record IsReady {S : System} (r : RocksDb) (w : World S) : Type 0 where
  pub puts : (value key : Bytes) (o : RocksDbWriteOptions) → Quiet w (put r value key o w)
  pub gets : (key : Bytes) (o : RocksDbReadOptions) → Quiet w (get r key o w)
  pub deletes : (key : Bytes) (o : RocksDbWriteOptions) → Quiet w (delete r key o w)
  pub tests : (key : Bytes) (o : RocksDbReadOptions) → Quiet w (key_may_exist r key o w)
  pub flushes : (wait : Bool) → Quiet w (flush r wait w)
  pub compacts : (start_key end_key : Option Bytes) → Quiet w (compact_range r start_key end_key w)
  pub reports : (name : String) → Quiet w (get_property r name w)

closed-heap :
    {S : System} (w : World S) {q : RocksDb} {v : World S}
    → Tidy w.heap q v
    → q.handle ≡ none
    → v.heap ≡ w.heap
closed-heap w (tidy_closed e later h) gone = h
closed-heap w (tidy_open b d m e later at stands free h) gone = absurd (differ (sym e ∙ gone))

module _ {S : System} (opener : IsOpener S) {r q : RocksDb} {w v : World S} (sound : IsSound w)
    (shut : r.handle ≡ none) where
  -- If the library stores a database exactly where it reports OK, then in every state that a
  -- closed object, in a world whose allocations are recorded, can reach by the three `open`s on a
  -- closed object, `close` and the calls named here, `put`, `get`, `delete`, `keyMayExist`,
  -- `flush`, `compactRange` and `getProperty` return or throw, without a fault, and leave the heap
  -- as it was.
  pub Steps-IsReady : Steps r w q v → IsReady q v
  Steps-IsReady steps =
      let tidy = Tidy-Steps opener (tidy_closed shut sound refl) steps in
      record {
        puts = Quiet-put tidy;
        gets = Quiet-get tidy;
        deletes = Quiet-delete tidy;
        tests = Quiet-key_may_exist tidy;
        flushes = Quiet-flush tidy;
        compacts = Quiet-compact_range tidy;
        reports = Quiet-get_property tidy;
      }

  -- If the library stores a database exactly where it reports OK, then after any number of calls
  -- of the three `open`s on a closed object, `close`, `put`, `get`, `delete`, `keyMayExist`,
  -- `flush`, `compactRange` and `getProperty`, each of which returns or throws, that lead from a
  -- closed object in a world whose allocations are recorded to a closed object, the heap is what
  -- it was before: nothing has been leaked, and nothing else freed.
  pub Steps-no_leak : Steps r w q v → q.handle ≡ none → v.heap ≡ w.heap
  Steps-no_leak steps = closed-heap w (Tidy-Steps opener (tidy_closed shut sound refl) steps)
