-- ===== src/Lite/Agreement.antt =====
-- The small wrapper against the full one: `put`, `delete` and `get` on one handle.
use rock_db_swift.Prelude.{ℕ, String, ◌≡◌, some, Bytes, Bool-cases, inl, inr}
use rock_db_swift.System.{System, Code, Status}
use rock_db_swift.Memory.{Ptr, World, Run}
use rock_db_swift.Memory.Effects.{IsSound, Effect}
use rock_db_swift.Bridge.Status.{is_code}
use rock_db_swift.Bridge.Database.Live.{Live}
use rock_db_swift.Client.Error.{RocksDbError, Throws, returned, threw}
use rock_db_swift.Client.Error.Reports.{reported, reported-ok, reported-error}
use rock_db_swift.Client.AccessOptions.{default_read_options, default_write_options}
use rock_db_swift.Client.Database
use rock_db_swift.Client.Database.{RocksDb}
use rock_db_swift.Client.Database.Writes.{Effect-put, Effect-delete}
use rock_db_swift.Client.Database.Reads.{
  Effect-get, fetched, fetched-ok, fetched-not_found, fetched-error,
}
use rock_db_swift.Lite
use rock_db_swift.Lite.{RocksDbLiteError}
use rock_db_swift.Lite.Writes.{lite_reported, Effect-lite_put, Effect-lite_delete}
use rock_db_swift.Lite.Reads.{lite_fetched, Effect-lite_get}

-- The two wrappers return the same, or both throw.
pub data Agree {A : Type 0} : Throws A → Lite.Throws A → Type 0 where
  both_return : (a : A) → Agree (returned a) (Lite.returned a)
  both_throw : (e : RocksDbError) (f : RocksDbLiteError) → Agree (threw e) (Lite.threw f)

-- The two runs return the same or both throw, leave the library in the same state, and leave the
-- heap as it was.
pub record Same {S : System} {A : Type 0} (w : World S) (full : Run S (Throws A))
    (lite : Run S (Lite.Throws A)) : Type 0 where
  pub answer : Throws A
  pub lite_answer : Lite.Throws A
  pub state : S.State
  pub agree : Agree answer lite_answer
  pub effect : Effect w answer state full
  pub lite_effect : Effect w lite_answer state lite

module _ (S : System) (t : S.State) (s : Status) where
  reported-Agree :
      (missing : String) (failure : String → RocksDbLiteError)
      → Agree (reported S t s) (lite_reported S missing failure t s)
  reported-Agree missing failure = elim (Bool-cases (is_code s Code.ok)) [
    | inl fine ↦ rw (reported-ok S t s fine, fine) (both_return tt)
    | inr failed ↦ rw (reported-error S t s failed, failed) (both_throw _ _)
  ]

  fetched-Agree : (value : Bytes) → Agree (fetched S t s value) (lite_fetched S t s value)
  fetched-Agree value = elim (Bool-cases (is_code s Code.ok)) [
    | inl fine ↦ rw (fetched-ok S t s value fine, fine) (both_return _)
    | inr failed ↦ elim (Bool-cases (is_code s Code.not_found)) [
      | inl absent ↦ rw (fetched-not_found S t s value absent, failed, absent) (both_return _)
      | inr other ↦ rw (fetched-error S t s value failed other, failed, other) (both_throw _ _)
    ]
  ]

module _ {S : System} {w : World S} (sound : IsSound w) {p : Ptr} {d : ℕ} (live : Live w p d)
    (r : RocksDb) (e : r.handle ≡ some p) (path : String) where
  -- On one open handle, `put`, `delete` and `get` of the small wrapper and those of the full
  -- wrapper with its default options return the same value or both throw, leave the library in the
  -- same state, and leave the heap as it was.
  pub lite-agrees :
      (value key : Bytes)
      → Same w
          (Database.put r value key default_write_options w)
          (Lite.put (record { handle = some p; path = path }) value key w)
        × Same w
            (Database.delete r key default_write_options w)
            (Lite.delete (record { handle = some p; path = path }) key w)
        × Same w
            (Database.get r key default_read_options w)
            (Lite.get (record { handle = some p; path = path }) key w)
  lite-agrees value key = (
    record {
      answer = _;
      lite_answer = _;
      state = _;
      agree = reported-Agree S _ _ "Put failed" Lite.operation_failed;
      effect = Effect-put sound live r value key default_write_options e;
      lite_effect = Effect-lite_put sound live path value key;
    },
    record {
      answer = _;
      lite_answer = _;
      state = _;
      agree = reported-Agree S _ _ "Delete failed" Lite.operation_failed;
      effect = Effect-delete sound live r key default_write_options e;
      lite_effect = Effect-lite_delete sound live path key;
    },
    record {
      answer = _;
      lite_answer = _;
      state = _;
      agree = fetched-Agree S _ _ _;
      effect = Effect-get sound live r key default_read_options e;
      lite_effect = Effect-lite_get sound live path key;
    },
  )
