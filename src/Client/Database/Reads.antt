-- ===== src/Client/Database/Reads.antt =====
-- `get` of RocksDB.swift on an open database.
use rock_db_swift.Prelude.{
  ℕ, ◌+◌, ◌≡◌, refl, true, false, some, none, [], ◌∷◌, Bytes, Option, arith, length, take, ap,
  fun_ext, Bool-cases, inl, inr, if◌then◌else◌,
}
use rock_db_swift.System.{System, Status, Code}
use rock_db_swift.Memory.{
  Ptr, null, Cell, buffer, read_options, World, ok, M, and_then, free, malloc_copy, strdup,
  until_nul, new, load, load_buffer,
}
use rock_db_swift.Memory.Effects.{
  IsSound, IsSound-later, IsSound-with_cell, Effect, Effect-with_handle, Effect-call, Effect-pure,
  Effect-scope, At, At-new, with_cell, and_then_assoc, load-At, update-restore,
}
use rock_db_swift.Bridge.Status.{
  StatusCode, make_status, is_code, error_code, rocksdb_free_data, rocksdb_free_string,
}
use rock_db_swift.Bridge.AccessOptions.{rocksdb_read_options_destroy}
use rock_db_swift.Bridge.Database.{finish_get}
use rock_db_swift.Bridge.Database.Live.{Live, rocksdb_get-Live}
use rock_db_swift.Client.Error.{Throws, returned, threw, check, has_code, error_of, free_message}
use rock_db_swift.Client.Error.Reports.{meaning, text_or, check-error, error_code-ne-ok}
use rock_db_swift.Client.AccessOptions.{RocksDbReadOptions, create_read_handle}
use rock_db_swift.Client.AccessOptions.Handles.{library_read_options, create_read_handle_lem}
use rock_db_swift.Client.Database.{
  RocksDb, get, finish_value, data_bytes, optional, copied_value, resume, ◌>>?◌,
}
use rock_db_swift.Client.Database.Try.{Effect-threw, optional-At}
use rock_db_swift.Client.Database.Writes.{Live-old}

-- What a Swift caller sees of the library's answer to a get. A value whose copy finds no memory is
-- nil, as a missing key is.
abbrev pub fetched : (S : System) → S.State → Status → Bytes → Throws (Option Bytes)
fetched S t s value = elim s.code [
  | Code.ok ↦ returned (if S.grants t (length value) then some value else none)
  | Code.not_found ↦ returned none
  | code ↦ threw (meaning code (text_or S "Unknown error" t (S.to_string s)))
]

take-all : (xs : Bytes) → take (length xs) xs ≡ xs
take-all [] = refl
take-all (x ∷ xs) = ap (λ (l : Bytes). x ∷ l) (take-all xs)

module _ {S : System} {w : World S} where
  pub data_bytes-At :
      {p : Ptr} {bytes : Bytes} → At w p (buffer bytes) → data_bytes p (length bytes) w ≡ ok bytes w
  unfolding data_bytes load_buffer
  data_bytes-At {bytes = bytes} at = rw (load-At at) (ground (arith, take-all bytes))

module _ {S : System} (w : World S) (sound : IsSound w) where
  -- A copied value is read and freed.
  granted_value :
      (value : Bytes)
      → Effect w (returned (some value)) w.engine (
          and_then (new (buffer value) w) λ p. finish_value (record {
            status = record { code = StatusCode.ok; message = null };
            value_out = p;
            value_len_out = length value;
          }))
  unfolding new finish_value copied_value has_code check rocksdb_free_data
  granted_value value =
      let at : At (with_cell w (buffer value)) w.next (buffer value) =
        At-new sound (buffer value) in
      rw (optional-At at, copied_value)
        (rw (data_bytes-At at)
          (Effect-scope sound (buffer value) (returned (some value)) w.engine _ (Effect-pure _ _)))

  -- A get that found nothing: its message is freed.
  missing_value :
      (text : Bytes)
      → Effect w (returned none) w.engine (
          and_then (strdup text w) λ p. finish_value (record {
            status = record { code = StatusCode.not_found; message = p };
            value_out = null;
            value_len_out = 0;
          }))
  unfolding strdup new finish_value has_code free_message rocksdb_free_string free load
  missing_value text = elim (Bool-cases (S.grants w.engine (length (until_nul text) + 1))) [
    | inl granted ↦ record {
      after = w.next + 1;
      grows = omega arith;
      runs =
          rw granted
            (ground (arith, sound.positive, update-restore sound (buffer (until_nul text))));
    }
    | inr refused ↦ record { after = w.next; grows = omega arith; runs = rw refused }
  ]

  finish_failed :
      (c : StatusCode)
      → ((p : Ptr) → has_code (record { code = c; message = p }) StatusCode.not_found ≡ false)
      → ◌≡◌ {A = Ptr → M S (Throws (Option Bytes))}
          (λ p. finish_value (record {
            status = record { code = c; message = p };
            value_out = null;
            value_len_out = 0;
          }))
          (λ p. check (record { code = c; message = p }) >>? λ _. copied_value null 0)
  unfolding finish_value
  finish_failed c k = fun_ext λ p. rw (k p)

  -- A get that failed otherwise: its error is thrown, its message freed.
  failed_value :
      (c : StatusCode) (text : Bytes)
      → has_code (record { code = c; message = null }) StatusCode.ok ≡ false
      → ((p : Ptr) → has_code (record { code = c; message = p }) StatusCode.not_found ≡ false)
      → Effect w (threw (error_of c (text_or S "Unknown error" w.engine text))) w.engine (
          and_then (strdup text w) λ p. finish_value (record {
            status = record { code = c; message = p };
            value_out = null;
            value_len_out = 0;
          }))
  unfolding finish_value
  failed_value c text h k =
      let checked : Ptr → M S (Throws (Unit {0})) = λ p. check (record { code = c; message = p }) in
      rw
        (
          finish_failed c k,
          ← and_then_assoc (strdup text w) checked (resume (λ _. copied_value null 0)),
        )
        (Effect-threw _ (check-error w sound c text h))

module _ (S : System) (t : S.State) (s : Status) (value : Bytes) where
  pub fetched-ok :
      is_code s Code.ok ≡ true
      → fetched S t s value ≡ returned (if S.grants t (length value) then some value else none)
  unfolding is_code
  fetched-ok h = ground arith

  pub fetched-not_found : is_code s Code.not_found ≡ true → fetched S t s value ≡ returned none
  unfolding is_code
  fetched-not_found h = ground arith

  pub fetched-error :
      is_code s Code.ok ≡ false
      → is_code s Code.not_found ≡ false
      → fetched S t s value
        ≡ threw (error_of (error_code s) (text_or S "Unknown error" t (S.to_string s)))
  unfolding error_code error_of
  fetched-error h k = ground arith

pub error_code-not_found :
    (s : Status) → is_code s Code.not_found ≡ true → error_code s ≡ StatusCode.not_found
unfolding error_code
error_code-not_found s h = ground arith

pub error_code-found :
    (s : Status) (p : Ptr)
    → is_code s Code.not_found ≡ false
    → has_code (record { code = error_code s; message = p }) StatusCode.not_found ≡ false
unfolding has_code error_code
error_code-found s p h = ground arith

module _ {S : System} (w : World S) (sound : IsSound w) (s : Status) (value : Bytes) where
  fetch_ok :
      is_code s Code.ok ≡ true
      → Effect w
          (returned (if S.grants w.engine (length value) then some value else none))
          w.engine
          (and_then (finish_get s value w) finish_value)
  unfolding finish_get malloc_copy make_status
  fetch_ok fine = elim (Bool-cases (S.grants w.engine (length value))) [
    | inl granted ↦ rw (fine, granted) (granted_value w sound value)
    | inr refused ↦
        rw (fine, refused)
          (unfold finish_value has_code check copied_value optional in Effect-pure w _)
  ]

  -- The copy that the bridge makes of a value, or the error, reaches the Swift caller; nothing is
  -- left allocated.
  pub finish_get-finish_value :
      Effect w (fetched S w.engine s value) w.engine (and_then (finish_get s value w) finish_value)
  unfolding finish_get make_status
  finish_get-finish_value = elim (Bool-cases (is_code s Code.ok)) [
    | inl fine ↦ rw (fetched-ok S w.engine s value fine) (fetch_ok fine)
    | inr failed ↦ elim (Bool-cases (is_code s Code.not_found)) [
      | inl absent ↦
          rw
            (
              fetched-not_found S w.engine s value absent,
              failed,
              and_then_assoc,
              and_then_assoc,
              error_code-not_found s absent,
            )
            (missing_value w sound (S.to_string s))
      | inr other ↦
          rw (fetched-error S w.engine s value failed other, failed, and_then_assoc, and_then_assoc)
            (failed_value w sound (error_code s) (S.to_string s) (error_code-ne-ok s)
              (λ p. error_code-found s p other))
    ]
  ]

module _ {S : System} {w : World S} (sound : IsSound w) {p : Ptr} {d : ℕ} (live : Live w p d) where
  -- On an open database `get` is one `Get` of the library with the caller's options: a found value
  -- is copied out (nil where the allocator refuses the copy), `NotFound` is nil, and any other
  -- status throws its error. The heap is left as it was.
  pub Effect-get :
      (r : RocksDb) (key : Bytes) (o : RocksDbReadOptions)
      → r.handle ≡ some p
      → let result = S.get d (library_read_options S o) key w.engine in
        Effect w (fetched S result.1 result.0.0 result.0.1) result.1 (get r key o w)
  unfolding get rocksdb_read_options_destroy
  Effect-get r key o e =
      let c : Cell S = read_options (library_read_options S o) in
      let result = S.get d (library_read_options S o) key w.engine in
      rw e (
        Effect-with_handle (create_read_handle o) rocksdb_read_options_destroy _ c _ result.1 sound
          (create_read_handle_lem w sound o) (λ q. refl)
          (rw (rocksdb_get-Live (Live-old sound c live) key (At-new sound c)) (
            Effect-call (
              finish_get-finish_value _
                (IsSound-later (IsSound-with_cell sound c) (w.next + 1) result.1 (omega arith))
                result.0.0 result.0.1))))
