-- ===== src/Lite/Reads.antt =====
-- `get` of RocksDBLite.swift on an open database.
use rock_db_swift.Prelude.{
  ℕ, String, ◌+◌, ◌≡◌, refl, true, false, some, none, Option, Bytes, arith, if◌then◌else◌, length,
  Bool-cases, inl, inr, fun_ext,
}
use rock_db_swift.System.{new_read_options, System, Code, Status}
use rock_db_swift.Memory.{
  Ptr, null, Cell, read_options, buffer, World, ok, M, and_then, strdup, until_nul, new, free, load,
  malloc_copy,
}
use rock_db_swift.Memory.Effects.{
  IsSound, IsSound-later, IsSound-with_cell, Effect, Effect-bind, Effect-pure, Effect-call,
  Effect-scope, Effect-with_handle, At, At-new, with_cell, update-restore, and_then_assoc,
}
use rock_db_swift.Bridge.Status.{
  StatusCode, is_code, error_code, make_status, rocksdb_free_data, rocksdb_free_string,
}
use rock_db_swift.Bridge.AccessOptions.{rocksdb_read_options_create, rocksdb_read_options_destroy}
use rock_db_swift.Bridge.Database.{finish_get}
use rock_db_swift.Bridge.Database.Live.{Live, rocksdb_get-Live}
use rock_db_swift.Client.Error.{has_code, free_message}
use rock_db_swift.Client.Error.Reports.{text_or, error_code-ne-ok}
use rock_db_swift.Client.Database.{optional}
use rock_db_swift.Client.Database.Try.{optional-At}
use rock_db_swift.Client.Database.Reads.{data_bytes-At, error_code-not_found, error_code-found}
use rock_db_swift.Client.Database.Writes.{Live-old}
use rock_db_swift.Lite.{
  operation_failed, Throws, returned, threw, require_ok, finish_value, copied_value, get, ◌>>?◌,
  resume,
}
use rock_db_swift.Lite.Writes.{require_ok-error}

-- What a caller sees of the library's answer to a get.
abbrev pub lite_fetched : (S : System) → S.State → Status → Bytes → Throws (Option Bytes)
lite_fetched S t s value =
    if is_code s Code.ok
    then returned (if S.grants t (length value) then some value else none)
    else if is_code s Code.not_found
    then returned none
    else threw (operation_failed (text_or S "Get failed" t (S.to_string s)))

module _ (S : System) (t : S.State) (s : Status) (value : Bytes)
    (failed : is_code s Code.ok ≡ false) where
  pub lite_fetched-not_found :
      is_code s Code.not_found ≡ true → lite_fetched S t s value ≡ returned none
  lite_fetched-not_found absent = rw (failed, absent) refl

  pub lite_fetched-error :
      is_code s Code.not_found ≡ false
      → lite_fetched S t s value
        ≡ threw (operation_failed (text_or S "Get failed" t (S.to_string s)))
  lite_fetched-error other = rw (failed, other) refl

module _ {S : System} (w : World S) (sound : IsSound w) where
  granted_value :
      (value : Bytes)
      → Effect w (returned (some value)) w.engine (
          and_then (new (buffer value) w) λ p. finish_value (record {
            status = record { code = StatusCode.ok; message = null };
            value_out = p;
            value_len_out = length value;
          }))
  unfolding new finish_value has_code require_ok rocksdb_free_data copied_value
  granted_value value =
      let at : At (with_cell w (buffer value)) w.next (buffer value) =
        At-new sound (buffer value) in
      rw (optional-At at, copied_value)
        (rw (data_bytes-At at)
          (Effect-scope sound (buffer value) (returned (some value)) w.engine _ (Effect-pure _ _)))

  missing_value :
      (text : Bytes)
      → Effect w (returned none) w.engine (
          and_then (strdup text w) λ p. finish_value (record {
            status = record { code = StatusCode.not_found; message = p };
            value_out = null;
            value_len_out = 0;
          }))
  unfolding strdup new finish_value has_code free_message rocksdb_free_string free load
  missing_value text = elim (Bool-cases (S.grants w.engine (length (until_nul text) + 1))) [
    | inl granted ↦ record {
      after = w.next + 1;
      grows = omega arith;
      runs =
          rw granted
            (ground (arith, sound.positive, update-restore sound (buffer (until_nul text))));
    }
    | inr refused ↦ record { after = w.next; grows = omega arith; runs = rw refused }
  ]

  finish_failed :
      (c : StatusCode)
      → ((p : Ptr) → has_code (record { code = c; message = p }) StatusCode.not_found ≡ false)
      → ◌≡◌ {A = Ptr → M S (Throws (Option Bytes))}
          (λ p. finish_value (record {
            status = record { code = c; message = p };
            value_out = null;
            value_len_out = 0;
          }))
          (λ p. require_ok "Get failed" operation_failed (record { code = c; message = p }) >>? λ _.
            copied_value null 0)
  unfolding finish_value
  finish_failed c k = fun_ext λ p. rw (k p)

  failed_value :
      (c : StatusCode) (text : Bytes)
      → has_code (record { code = c; message = null }) StatusCode.ok ≡ false
      → ((p : Ptr) → has_code (record { code = c; message = p }) StatusCode.not_found ≡ false)
      → Effect w (threw (operation_failed (text_or S "Get failed" w.engine text))) w.engine (
          and_then (strdup text w) λ p. finish_value (record {
            status = record { code = c; message = p };
            value_out = null;
            value_len_out = 0;
          }))
  unfolding finish_value
  failed_value c text h k =
      let checked : Ptr → M S (Throws (Unit {0})) =
        λ p. require_ok "Get failed" operation_failed (record { code = c; message = p }) in
      rw
        (
          finish_failed c k,
          ← and_then_assoc (strdup text w) checked (resume (λ _. copied_value null 0)),
        )
        (Effect-bind _ (require_ok-error w sound "Get failed" operation_failed c text h)
          (λ n h. Effect-pure _ _))

module _ {S : System} (w : World S) (sound : IsSound w) (s : Status) (value : Bytes) where
  fetch_ok :
      is_code s Code.ok ≡ true
      → Effect w
          (lite_fetched S w.engine s value)
          w.engine
          (and_then (finish_get s value w) finish_value)
  unfolding finish_get malloc_copy make_status
  fetch_ok fine = elim (Bool-cases (S.grants w.engine (length value))) [
    | inl granted ↦ rw (fine, granted) (granted_value w sound value)
    | inr refused ↦
        rw (fine, refused)
          (unfold finish_value has_code require_ok copied_value optional in Effect-pure w _)
  ]

  finish_get-finish_value :
      Effect w
        (lite_fetched S w.engine s value)
        w.engine
        (and_then (finish_get s value w) finish_value)
  unfolding finish_get make_status
  finish_get-finish_value = elim (Bool-cases (is_code s Code.ok)) [
    | inl fine ↦ fetch_ok fine
    | inr failed ↦ elim (Bool-cases (is_code s Code.not_found)) [
      | inl absent ↦
          rw
            (
              lite_fetched-not_found S w.engine s value failed absent,
              failed,
              and_then_assoc,
              and_then_assoc,
              error_code-not_found s absent,
            )
            (missing_value w sound (S.to_string s))
      | inr other ↦
          rw
            (
              lite_fetched-error S w.engine s value failed other,
              failed,
              and_then_assoc,
              and_then_assoc,
            )
            (failed_value w sound (error_code s) (S.to_string s) (error_code-ne-ok s)
              (λ p. error_code-found s p other))
    ]
  ]

read_options_created :
    {S : System} (w : World S)
    → rocksdb_read_options_create w ≡ ok w.next (with_cell w (read_options new_read_options))
unfolding rocksdb_read_options_create new
read_options_created w = refl

module _ {S : System} {w : World S} (sound : IsSound w) {p : Ptr} {d : ℕ} (live : Live w p d)
    (path : String) where
  -- On an open database `get` of the small wrapper is one `Get` of the library with its default
  -- options; the heap is left as it was.
  pub Effect-lite_get :
      (key : Bytes)
      → let result = S.get d new_read_options key w.engine in
        Effect w
          (lite_fetched S result.1 result.0.0 result.0.1)
          result.1
          (get (record { handle = some p; path = path }) key w)
  unfolding get rocksdb_read_options_destroy
  Effect-lite_get key =
      let c : Cell S = read_options new_read_options in
      let result = S.get d new_read_options key w.engine in
      Effect-with_handle rocksdb_read_options_create rocksdb_read_options_destroy _ c _ result.1
        sound (read_options_created w) (λ q. refl)
        (rw (rocksdb_get-Live (Live-old sound c live) key (At-new sound c)) (
          Effect-call (
            finish_get-finish_value _
              (IsSound-later (IsSound-with_cell sound c) (w.next + 1) result.1 (omega arith))
              result.0.0 result.0.1)))
