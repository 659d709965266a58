-- ===== src/Client/Error/Reports.antt =====
-- The way of an error from the library to Swift: `make_status`, then `from` and `check`.
use rock_db_swift.Prelude.{
  ◌+◌, true, false, ◌≡◌, refl, String, Bytes, arith, if◌then◌else◌, length, Bool-cases, inl, inr,
}
use rock_db_swift.System.{System, Code, Status}
use rock_db_swift.Memory.{null, buffer, World, and_then, ◌>>=◌, until_nul, strdup}
use rock_db_swift.Memory.Effects.{IsSound, Effect, and_then_assoc, Effect-pure, update-restore}
use rock_db_swift.Bridge.Status.{
  StatusCode, code_value, status_value, is_code, error_code, make_status,
}
use rock_db_swift.Client.Error.{RocksDbError, Throws, returned, threw, error_of, has_code, check}

-- What each code of the library means to a Swift caller, apart from OK.
abbrev pub meaning : Code → String → RocksDbError
meaning Code.ok m = RocksDbError.io_error m
meaning Code.not_found m = RocksDbError.not_found
meaning Code.corruption m = RocksDbError.corruption m
meaning Code.not_supported m = RocksDbError.not_supported m
meaning Code.invalid_argument m = RocksDbError.invalid_argument m
meaning Code.io_error m = RocksDbError.io_error m
meaning Code.merge_in_progress m = RocksDbError.merge_in_progress m
meaning Code.incomplete m = RocksDbError.incomplete m
meaning Code.shutdown_in_progress m = RocksDbError.shutdown_in_progress
meaning Code.timed_out m = RocksDbError.timed_out
meaning Code.aborted m = RocksDbError.aborted m
meaning Code.busy m = RocksDbError.busy
meaning Code.expired m = RocksDbError.expired
meaning Code.try_again m = RocksDbError.try_again
meaning Code.compaction_too_large m = RocksDbError.compaction_too_large m
meaning Code.column_family_dropped m = RocksDbError.io_error m

module _ (S : System) where
  -- The text that arrives, with a stand-in for where no memory is left for a copy.
  abbrev pub text_or : String → S.State → Bytes → String
  text_or missing s bytes =
      if S.grants s (length (until_nul bytes) + 1) then S.c_string (until_nul bytes) else missing

  -- What a Swift caller sees of a library status.
  abbrev pub reported : S.State → Status → Throws (Unit {0})
  reported s status = elim status.code [
    | Code.ok ↦ returned tt
    | code ↦ threw (meaning code (text_or "Unknown error" s (S.to_string status)))
  ]

pub error_of-error_code : (s : Status) (m : String) → error_of (error_code s) m ≡ meaning s.code m
unfolding error_of error_code
error_of-error_code s m = ground arith

-- For a status that is not OK, `make_status` gives the number of the library's code, except that a
-- dropped column family becomes an I/O error, 5.
pub status_value-error_code :
    (s : Status)
    → is_code s Code.ok ≡ false
    → status_value (error_code s)
      ≡ (if is_code s Code.column_family_dropped then 5 else code_value s.code)
unfolding status_value error_code
status_value-error_code s h = ground arith

pub error_code-ne-ok :
    (s : Status) → has_code (record { code = error_code s; message = null }) StatusCode.ok ≡ false
unfolding has_code error_code
error_code-ne-ok s = ground arith

module _ (S : System) (t : S.State) (s : Status) where
  pub reported-ok : is_code s Code.ok ≡ true → reported S t s ≡ returned tt
  unfolding is_code
  reported-ok h = ground arith

  pub reported-error :
      is_code s Code.ok ≡ false
      → reported S t s
        ≡ threw (error_of (error_code s) (text_or S "Unknown error" t (S.to_string s)))
  unfolding error_code error_of
  reported-error h = ground arith

module _ {S : System} (w : World S) (sound : IsSound w) where
  -- A failing status with its message: the message is read and freed.
  pub check-error :
      (c : StatusCode) (text : Bytes)
      → has_code (record { code = c; message = null }) StatusCode.ok ≡ false
      → Effect w
          (threw (error_of c (text_or S "Unknown error" w.engine text)))
          w.engine
          (and_then (strdup text w) λ p. check (record { code = c; message = p }))
  unfolding strdup check has_code
  check-error c text h = elim (Bool-cases (S.grants w.engine (length (until_nul text) + 1))) [
    | inl granted ↦ record {
      after = w.next + 1;
      grows = omega arith;
      runs =
          rw (granted, h)
            (ground (arith, sound.positive, update-restore sound (buffer (until_nul text))));
    }
    | inr refused ↦ record { after = w.next; grows = omega arith; runs = rw (refused, h) refl }
  ]

  -- In a world whose allocations are recorded, a status of the library, turned into a C status by
  -- `make_status` and checked by `check`, returns if it is OK and otherwise throws the Swift error
  -- of its code, with the library's text, or a stand-in where the allocator refuses the copy; the
  -- message is freed and the heap left as it was.
  pub check-make_status :
      (s : Status) → Effect w (reported S w.engine s) w.engine ((make_status s >>= check) w)
  unfolding make_status
  check-make_status s = elim (Bool-cases (is_code s Code.ok)) [
    | inl fine ↦ rw (fine, reported-ok S w.engine s fine) (unfold check has_code in Effect-pure w _)
    | inr failed ↦
        rw (failed, reported-error S w.engine s failed, and_then_assoc)
          (check-error (error_code s) (S.to_string s) (error_code-ne-ok s))
  ]
