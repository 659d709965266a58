-- ===== src/Client/Locked/Lites.antt =====
-- RocksDBLite.swift: the five members of the class that hold its lock, access by access.
use rock_db_swift.Prelude.{true, ◌≡◌, refl, Bool, Option, none, Bytes, if◌then◌else◌}
use rock_db_swift.System.{System}
use rock_db_swift.Memory.{Ptr, World, M, pure, and_then}
use rock_db_swift.Bridge.Status.{StatusCode}
use rock_db_swift.Bridge.AccessOptions.{
  rocksdb_read_options_create, rocksdb_read_options_destroy, rocksdb_write_options_create,
  rocksdb_write_options_destroy,
}
use rock_db_swift.Bridge.Database.{
  GetResult, rocksdb_close, rocksdb_put, rocksdb_get, rocksdb_delete,
}
use rock_db_swift.Client.Error.{has_code, free_message}
use rock_db_swift.Lite
use rock_db_swift.Lite.{
  RocksDbLite, RocksDbLiteError, operation_failed, database_closed, Throws, returned, threw,
  is_open, require_ok, copied_value, finish_value, resume,
}
use rock_db_swift.Client.Locked.{
  Script, ends, reads, sets, beside, does, ◌>>=◌, ◌>>◌, with_handle, guarded, whole, Is, ends-Is,
  does-Is, bind-Is, branch-Is, with_handle-Is, guarded-beside, whole-closing,
}
use rock_db_swift.Client.Locked.Threads.{Class}

pub data Call : Type 0 where
  asking_open : Call
  closing : Call
  putting : (value key : Bytes) → Call
  getting : (key : Bytes) → Call
  deleting : (key : Bytes) → Call

-- Whether the member is `lock.withLock { … }`.
unfoldable pub takes_lock : Call → Bool
takes_lock asking_open = true
takes_lock closing = true
takes_lock (putting value key) = true
takes_lock (getting key) = true
takes_lock (deleting key) = true

pub takes_lock-always : (c : Call) → takes_lock c ≡ true
unfolding takes_lock
takes_lock-always asking_open = refl
takes_lock-always closing = refl
takes_lock-always (putting value key) = refl
takes_lock-always (getting key) = refl
takes_lock-always (deleting key) = refl

abbrev pub Answer : Call → Type 0
Answer asking_open = Bool
Answer closing = Unit {0}
Answer (putting value key) = Throws (Unit {0})
Answer (getting key) = Throws (Option Bytes)
Answer (deleting key) = Throws (Unit {0})

abbrev handle : RocksDbLite → Option Ptr
handle r = r.handle

module _ {S : System} where
  -- The whole methods.
  unfoldable pub method : (c : Call) → RocksDbLite → M S (Answer c × RocksDbLite)
  method asking_open r = pure (is_open r, r)
  method closing r = λ w. and_then (Lite.close r w) λ q. pure (tt, q)
  method (putting value key) r = beside (Lite.put r value key) r
  method (getting key) r = beside (Lite.get r key) r
  method (deleting key) r = beside (Lite.delete r key) r

  -- The value behind the pointer is copied, unless the status says that there is none.
  unfoldable pub get_end : GetResult → Script S RocksDbLite (Throws (Option Bytes))
  get_end result =
      if has_code result.status StatusCode.not_found
      then does (free_message result.status) >> ends (returned none)
      else (do
        c ← does (require_ok "Get failed" operation_failed result.status)
        elim c [
          | returned u ↦ does (copied_value result.value_out result.value_len_out)
          | threw e ↦ ends (threw e)
        ])

  unfoldable pub body : (c : Call) → Script S RocksDbLite (Answer c)
  body asking_open = reads is_open
  body closing =
      guarded handle tt λ h. do does (rocksdb_close h); sets λ r. record r { handle = none }
  body (putting value key) = guarded handle (threw database_closed) λ h.
      with_handle rocksdb_write_options_create rocksdb_write_options_destroy λ opts. do
        status ← does (rocksdb_put h opts key value)
        does (require_ok "Put failed" operation_failed status)
  body (getting key) = guarded handle (threw database_closed) λ h.
      with_handle rocksdb_read_options_create rocksdb_read_options_destroy
        λ opts. do result ← does (rocksdb_get h opts key); get_end result
  body (deleting key) = guarded handle (threw database_closed) λ h.
      with_handle rocksdb_write_options_create rocksdb_write_options_destroy λ opts. do
        status ← does (rocksdb_delete h opts key)
        does (require_ok "Delete failed" operation_failed status)

  get_end-Is : (result : GetResult) → Is (get_end result) (finish_value result)
  unfolding get_end finish_value
  get_end-Is result =
      branch-Is (has_code result.status StatusCode.not_found)
        (bind-Is (does-Is (free_message result.status)) λ _. ends-Is (returned none))
        (bind-Is (does-Is (require_ok "Get failed" operation_failed result.status)) rest)
    where
      rest :
          (c : Throws (Unit {0}))
          → Is {S = S} {O = RocksDbLite}
              (elim c [
                | returned u ↦ does (copied_value result.value_out result.value_len_out)
                | threw e ↦ ends (threw e)
              ])
              (resume (λ _. copied_value result.value_out result.value_len_out) c)
      rest (returned u) = does-Is (copied_value result.value_out result.value_len_out)
      rest (threw e) = ends-Is (threw e)

  whole-asking :
      (r : RocksDbLite) (w : World S) → whole (body asking_open) r w ≡ method asking_open r w
  unfolding body method whole
  whole-asking r w = refl

  pub whole-body : (c : Call) (r : RocksDbLite) (w : World S) → whole (body c) r w ≡ method c r w
  unfolding body method Lite.close Lite.put Lite.get Lite.delete
  whole-body asking_open r w = whole-asking r w
  whole-body closing r w = whole-closing handle _ _ r w
  whole-body (putting value key) r w = guarded-beside handle _ _ r w _ λ h.
      (with_handle-Is rocksdb_write_options_create rocksdb_write_options_destroy
          λ opts. bind-Is (does-Is (rocksdb_put h opts key value)) λ status. does-Is _).runs
        r w
  whole-body (getting key) r w = guarded-beside handle _ _ r w _ λ h.
      (with_handle-Is rocksdb_read_options_create rocksdb_read_options_destroy
          λ opts. bind-Is (does-Is (rocksdb_get h opts key)) get_end-Is).runs
        r w
  whole-body (deleting key) r w = guarded-beside handle _ _ r w _ λ h.
      (with_handle-Is rocksdb_write_options_create rocksdb_write_options_destroy
          λ opts. bind-Is (does-Is (rocksdb_delete h opts key)) λ status. does-Is _).runs
        r w

-- RocksDBLite.swift as a class with a lock.
abbrev pub lite_class : (S : System) → Class S
lite_class S = record {
  Object = RocksDbLite;
  Call = Call;
  Answer = Answer;
  method = method;
  body = body;
  takes_lock = takes_lock;
  always_locked = takes_lock-always;
  body_method = whole-body;
}
