-- ===== src/Client/Lifecycle/Quiet.antt =====
-- Methods of RocksDB.swift that leave the heap alone, whether the object is open or closed.
use rock_db_swift.Prelude.{ℕ, ◌≡◌, Bool, Option, none, some, String, Bytes}
use rock_db_swift.System.{System}
use rock_db_swift.Memory.{Ptr, Cell, db, DbHandle, World, Run, ok, update}
use rock_db_swift.Memory.Effects.{IsSound, Effect, Effect-pure, At}
use rock_db_swift.Bridge.Database.Live.{Live}
use rock_db_swift.Client.AccessOptions.{RocksDbReadOptions, RocksDbWriteOptions}
use rock_db_swift.Client.Database.{RocksDb, put, get, delete, key_may_exist}
use rock_db_swift.Client.Database.Writes.{Effect-put, Effect-delete}
use rock_db_swift.Client.Database.Reads.{Effect-get}
use rock_db_swift.Client.Database.Closing.{open_handle}
use rock_db_swift.Client.Maintenance.{compact_range, flush, get_property}
use rock_db_swift.Client.Maintenance.Calls.{
  Effect-key_may_exist, Effect-flush, Effect-compact_range, Effect-get_property,
}

-- The heap is `base` and the handle of the open database, if there is one.
pub data Tidy {S : System} (base : Ptr → Option (Cell S)) (r : RocksDb) (w : World S) : Type 0 where
  tidy_closed : r.handle ≡ none → IsSound w → w.heap ≡ base → Tidy base r w
  tidy_open :
      {p : Ptr} {i : ℕ} (transactional : Bool) (d : ℕ) (m : Option ℕ)
      → r.handle ≡ some p
      → IsSound w
      → At w p (db (open_handle transactional d m))
      → (open_handle transactional d m).db ≡ some i
      → base p ≡ none
      → w.heap ≡ update base p (some (db (open_handle transactional d m)))
      → Tidy base r w

-- The run has an answer, and the heap is as it was.
pub record Quiet {S : System} {A : Type 0} (w : World S) (r : Run S A) : Type 0 where
  pub answer : A
  pub state : S.State
  pub effect : Effect w answer state r

module _ {S : System} {A : Type 0} {w : World S} where
  pub quiet : {a : A} {s : S.State} {r : Run S A} → Effect w a s r → Quiet w r
  quiet {a} {s} e = record { answer = a; state = s; effect = e }

  pub Quiet-pure : (a : A) → Quiet w (ok a w)
  Quiet-pure a = quiet (Effect-pure w a)

module _ {S : System} {w : World S} {p : Ptr} {h : DbHandle} {d : ℕ} where
  pub Live-open : At w p (db h) → h.db ≡ some d → Live w p d
  Live-open at stands = record { handle = h; at = at; live = stands }

module _ {S : System} {base : Ptr → Option (Cell S)} {r : RocksDb} {w : World S} where
  pub Quiet-put :
      Tidy base r w → (value key : Bytes) (o : RocksDbWriteOptions) → Quiet w (put r value key o w)
  Quiet-put (tidy_closed e sound h) value key o = unfold put in rw e (Quiet-pure _)
  Quiet-put (tidy_open b d m e sound at stands free h) value key o =
      quiet (Effect-put sound (Live-open at stands) r value key o e)

  pub Quiet-get : Tidy base r w → (key : Bytes) (o : RocksDbReadOptions) → Quiet w (get r key o w)
  Quiet-get (tidy_closed e sound h) key o = unfold get in rw e (Quiet-pure _)
  Quiet-get (tidy_open b d m e sound at stands free h) key o =
      quiet (Effect-get sound (Live-open at stands) r key o e)

  pub Quiet-delete :
      Tidy base r w → (key : Bytes) (o : RocksDbWriteOptions) → Quiet w (delete r key o w)
  Quiet-delete (tidy_closed e sound h) key o = unfold delete in rw e (Quiet-pure _)
  Quiet-delete (tidy_open b d m e sound at stands free h) key o =
      quiet (Effect-delete sound (Live-open at stands) r key o e)

  pub Quiet-key_may_exist :
      Tidy base r w → (key : Bytes) (o : RocksDbReadOptions) → Quiet w (key_may_exist r key o w)
  Quiet-key_may_exist (tidy_closed e sound h) key o = unfold key_may_exist in rw e (Quiet-pure _)
  Quiet-key_may_exist (tidy_open b d m e sound at stands free h) key o =
      quiet (Effect-key_may_exist sound (Live-open at stands) r e key o)

  pub Quiet-flush : Tidy base r w → (wait : Bool) → Quiet w (flush r wait w)
  Quiet-flush (tidy_closed e sound h) wait = unfold flush in rw e (Quiet-pure _)
  Quiet-flush (tidy_open b d m e sound at stands free h) wait =
      quiet (Effect-flush sound (Live-open at stands) r e wait)

  pub Quiet-compact_range :
      Tidy base r w
      → (start_key end_key : Option Bytes) → Quiet w (compact_range r start_key end_key w)
  Quiet-compact_range (tidy_closed e sound h) i j = unfold compact_range in rw e (Quiet-pure _)
  Quiet-compact_range (tidy_open b d m e sound at stands free h) i j =
      quiet (Effect-compact_range sound (Live-open at stands) r e i j)

  pub Quiet-get_property : Tidy base r w → (name : String) → Quiet w (get_property r name w)
  Quiet-get_property (tidy_closed e sound h) name = unfold get_property in rw e (Quiet-pure _)
  Quiet-get_property (tidy_open b d m e sound at stands free h) name =
      quiet (Effect-get_property sound (Live-open at stands) r e name)
