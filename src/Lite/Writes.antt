-- ===== src/Lite/Writes.antt =====
-- `put` and `delete` of RocksDBLite.swift on an open database.
use rock_db_swift.Prelude.{
  ℕ, String, ◌+◌, ◌≡◌, refl, false, some, Bytes, arith, if◌then◌else◌, length, Bool-cases, inl, inr,
}
use rock_db_swift.System.{new_write_options, System, Code, Status}
use rock_db_swift.Memory.{
  Ptr, null, Cell, write_options, buffer, World, ok, and_then, ◌>>=◌, strdup, until_nul, new,
}
use rock_db_swift.Memory.Effects.{
  IsSound, IsSound-later, IsSound-with_cell, Effect, Effect-pure, Effect-call, Effect-with_handle,
  At-new, with_cell, update-restore, and_then_assoc,
}
use rock_db_swift.Bridge.Status.{StatusCode, is_code, error_code, make_status}
use rock_db_swift.Bridge.AccessOptions.{rocksdb_write_options_create, rocksdb_write_options_destroy}
use rock_db_swift.Bridge.Database.Live.{Live, rocksdb_put-Live, rocksdb_delete-Live}
use rock_db_swift.Client.Error.{has_code, message_or, free_message}
use rock_db_swift.Client.Error.Reports.{text_or, error_code-ne-ok}
use rock_db_swift.Client.Database.Writes.{Live-old}
use rock_db_swift.Lite.{
  RocksDbLiteError, operation_failed, Throws, returned, threw, require_ok, put, delete,
}

-- What a caller sees of a library status: an error carries the library's text, or a stand-in.
abbrev pub lite_reported :
    (S : System) → String → (String → RocksDbLiteError) → S.State → Status → Throws (Unit {0})
lite_reported S missing failure s status =
    if is_code status Code.ok
    then returned tt
    else threw (failure (text_or S missing s (S.to_string status)))

module _ {S : System} (w : World S) (sound : IsSound w) (missing : String)
    (failure : String → RocksDbLiteError) where
  pub require_ok-error :
      (c : StatusCode) (text : Bytes)
      → has_code (record { code = c; message = null }) StatusCode.ok ≡ false
      → Effect w (threw (failure (text_or S missing w.engine text))) w.engine (
          and_then
            (strdup text w)
            λ p. require_ok missing failure (record { code = c; message = p }))
  unfolding strdup require_ok has_code message_or free_message
  require_ok-error c text h = elim (Bool-cases (S.grants w.engine (length (until_nul text) + 1))) [
    | inl granted ↦ record {
      after = w.next + 1;
      grows = omega arith;
      runs =
          rw (granted, h)
            (ground (arith, sound.positive, update-restore sound (buffer (until_nul text))));
    }
    | inr refused ↦ record { after = w.next; grows = omega arith; runs = rw (refused, h) refl }
  ]

  require_ok-make_status :
      (s : Status)
      → Effect w
          (lite_reported S missing failure w.engine s)
          w.engine
          ((make_status s >>= require_ok missing failure) w)
  unfolding make_status
  require_ok-make_status s = elim (Bool-cases (is_code s Code.ok)) [
    | inl fine ↦ rw fine (unfold require_ok has_code in Effect-pure w _)
    | inr failed ↦
        rw (failed, and_then_assoc)
          (require_ok-error (error_code s) (S.to_string s) (error_code-ne-ok s))
  ]

module _ {S : System} {w : World S} (sound : IsSound w) where
  options_created :
      rocksdb_write_options_create w ≡ ok w.next (with_cell w (write_options new_write_options))
  unfolding rocksdb_write_options_create new
  options_created = refl

  module _ {p : Ptr} {d : ℕ} (live : Live w p d) (path : String) where
    -- On an open database `put` of the small wrapper is one `Put` of the library with its default
    -- options and the caller's key and value; OK returns, and any other status throws
    -- `operationFailed` with the library's text, or with a stand-in where the allocator refuses
    -- the copy. The heap is left as it was.
    pub Effect-lite_put :
        (value key : Bytes)
        → let result = S.put d new_write_options key value w.engine in
          Effect w
            (lite_reported S "Put failed" operation_failed result.1 result.0)
            result.1
            (put (record { handle = some p; path = path }) value key w)
    unfolding put rocksdb_write_options_destroy
    Effect-lite_put value key =
        let c : Cell S = write_options new_write_options in
        let result = S.put d new_write_options key value w.engine in
        Effect-with_handle rocksdb_write_options_create rocksdb_write_options_destroy _ c _ result.1
          sound options_created (λ q. refl)
          (rw (rocksdb_put-Live (Live-old sound c live) key value (At-new sound c)) (
            Effect-call (
              require_ok-make_status (record (with_cell w c) { engine = result.1 })
                (IsSound-later (IsSound-with_cell sound c) (w.next + 1) result.1 (omega arith))
                "Put failed" operation_failed result.0)))

    -- On an open database `delete` of the small wrapper is one `Delete` of the library with its
    -- default options and the caller's key; OK returns, and any other status throws
    -- `operationFailed` with the library's text, or with a stand-in where the allocator refuses
    -- the copy. The heap is left as it was.
    pub Effect-lite_delete :
        (key : Bytes)
        → let result = S.delete d new_write_options key w.engine in
          Effect w
            (lite_reported S "Delete failed" operation_failed result.1 result.0)
            result.1
            (delete (record { handle = some p; path = path }) key w)
    unfolding delete rocksdb_write_options_destroy
    Effect-lite_delete key =
        let c : Cell S = write_options new_write_options in
        let result = S.delete d new_write_options key w.engine in
        Effect-with_handle rocksdb_write_options_create rocksdb_write_options_destroy _ c _ result.1
          sound options_created (λ q. refl)
          (rw (rocksdb_delete-Live (Live-old sound c live) key (At-new sound c)) (
            Effect-call (
              require_ok-make_status (record (with_cell w c) { engine = result.1 })
                (IsSound-later (IsSound-with_cell sound c) (w.next + 1) result.1 (omega arith))
                "Delete failed" operation_failed result.0)))
