-- ===== src/Client/Database/Opening.antt =====
-- `open` of RocksDB.swift, with `rocksdb_open` behind it.
use rock_db_swift.Prelude.{◌+◌, ◌≡◌, refl, Bool, true, false, some, none, String, arith}
use rock_db_swift.System.{System, Status, Code}
use rock_db_swift.Memory.{
  Ptr, null, Cell, db, options, DbHandle, World, ok, and_then, new, load_options, load_db, strdup,
}
use rock_db_swift.Memory.Effects.{
  IsSound, IsSound-later, IsSound-with_cell, Effect, Effect-with_handle, Effect-later, free-owned,
  update-restore, At, At-old, At-new, with_cell, and_then_assoc, load-At, not_null, store-fresh,
}
use rock_db_swift.Memory.Creations.{Created, Created-with_handle, Created-last}
use rock_db_swift.Bridge.Status.{CStatus, make_status, is_code, error_code}
use rock_db_swift.Bridge.Options.{rocksdb_options_destroy}
use rock_db_swift.Bridge.Database.{new_handle, finish_open, rocksdb_open, rocksdb_close, destruct}
use rock_db_swift.Client.Error.{returned, threw, check, has_code}
use rock_db_swift.Client.Error.Reports.{
  meaning, text_or, check-error, error_of-error_code, error_code-ne-ok,
}
use rock_db_swift.Client.Options.{RocksDbOptions, create_handle}
use rock_db_swift.Client.Options.Handles.{fits, library_options, create_handle_lem}
use rock_db_swift.Client.Database.{RocksDb, open_at, opened, handed_out, resume}
use rock_db_swift.Client.Database.Try.{optional-At, Effect-threw}

abbrev pub database : String → Bool → Ptr → RocksDb
database path transactional p = record {
  handle = some p;
  path = path;
  is_transactional = transactional;
}

destruct-empty :
    {S : System} (transactional : Bool) (w : World S)
    → destruct (record new_handle { is_transactional = transactional }) w ≡ ok tt w
unfolding destruct
destruct-empty true w = refl
destruct-empty false w = refl

module _ {S : System} {w : World S} (sound : IsSound w) where
  pub create_in_range :
      (o : RocksDbOptions)
      → fits o ≡ true
      → create_handle o w ≡ ok w.next (with_cell w (options (library_options S o)))
  create_in_range o fit = rw (create_handle_lem w sound o, fit)

  -- A handle that was made and filled is handed out under an OK status.
  pub hand_out :
      (path failure : String) (transactional : Bool) (s : Status) (h : DbHandle) (t : S.State)
      → is_code s Code.ok ≡ true
      → Created w
          (λ p. returned (database path transactional p))
          (db h)
          t
          (and_then
            (finish_open w.next s (record (with_cell w (db h)) { engine = t }))
            (opened path transactional failure))
  unfolding finish_open make_status opened handed_out check has_code
  hand_out path failure transactional s h t fine =
      rw fine (rw (optional-At (At-new sound (db h)), handed_out) (Created-last w _ (db h) t))

  close_empty :
      (transactional : Bool) (t : S.State)
      → rocksdb_close w.next
          (record (with_cell w (db (record new_handle { is_transactional = transactional }))) {
            engine = t;
          })
        ≡ ok tt (record w { next = w.next + 1; engine = t })
  unfolding rocksdb_close load_db
  close_empty transactional t =
      let c : Cell S = db (record new_handle { is_transactional = transactional }) in
      let v : World S = record (with_cell w c) { engine = t } in
      let at : At v w.next c = At-new (IsSound-later sound w.next t (omega arith)) c in
      rw (not_null at, load-At at, destruct-empty transactional v)
        (rw (free-owned w.next c v at.ne_null at.holds) (rw (update-restore sound c)))

  -- A handle whose opening failed is deleted again, and the failure is thrown.
  pub take_back :
      (path failure : String) (transactional : Bool) (s : Status) (t : S.State)
      → is_code s Code.ok ≡ false
      → Effect w (threw (meaning s.code (text_or S "Unknown error" t (S.to_string s)))) t (
          and_then
            (finish_open w.next s
              (record (with_cell w (db (record new_handle { is_transactional = transactional }))) {
                engine = t;
              }))
            (opened path transactional failure))
  unfolding finish_open make_status opened
  take_back path failure transactional s t failed =
      let v : World S = record w { next = w.next + 1; engine = t } in
      let status : Ptr → CStatus = λ p. record { code = error_code s; message = p } in
      rw
        (
          failed,
          close_empty transactional t,
          and_then_assoc,
          and_then_assoc,
          and_then_assoc,
          ← error_of-error_code,
        )
        (Effect-later {t = t} (w.next + 1) (omega arith) (
          rw
            (← and_then_assoc (strdup (S.to_string s) v) (λ p. check (status p))
              (resume (λ _. handed_out path transactional failure null)))
            (Effect-threw _ (
              check-error v (IsSound-later sound (w.next + 1) t (omega arith)) (error_code s)
                (S.to_string s) (error_code-ne-ok s)))))

  pub load_options-old :
      (o : RocksDbOptions) (c : Cell S)
      → load_options w.next (with_cell (with_cell w (options (library_options S o))) c)
        ≡ ok (library_options S o) (with_cell (with_cell w (options (library_options S o))) c)
  unfolding load_options
  load_options-old o c = rw (
      load-At (At-old (IsSound-with_cell sound _) c (At-new sound (options (library_options S o)))))

module _ {S : System} {w : World S} (sound : IsSound w) (path : String) (o : RocksDbOptions)
    (fit : fits o ≡ true) where
  -- For options in range, where the library opens the database, `open` returns an object whose
  -- handle is a new cell that holds the library's database, and everything else that it allocated
  -- is freed.
  pub Created-open_at :
      let result = S.open_db (library_options S o) path w.engine in
      is_code result.0.0 Code.ok ≡ true
      → Created w
          (λ p. returned (database path false p))
          (db (record new_handle { db = result.0.1 }))
          result.1
          (open_at path o w)
  unfolding open_at rocksdb_options_destroy rocksdb_open new
  Created-open_at fine =
      let c : Cell S = options (library_options S o) in
      let result = S.open_db (library_options S o) path w.engine in
      Created-with_handle (create_handle o) rocksdb_options_destroy _ c _ _ result.1 sound
        (create_in_range sound o fit) (λ p. refl)
        (rw
          (
            load_options-old sound o (db new_handle),
            store-fresh
                (IsSound-later (IsSound-with_cell sound c) (w.next + 1) result.1 (omega arith))
                (db new_handle) (db (record new_handle { db = result.0.1 })),
          )
          (hand_out (IsSound-with_cell sound c) path "Failed to open database" false result.0.0
            (record new_handle { db = result.0.1 }) result.1 fine))

  -- For options in range, where the library reports an error and stores no database, `open` throws
  -- the error that the status stands for, and everything that it allocated is freed.
  pub Effect-open_at :
      let result = S.open_db (library_options S o) path w.engine in
      is_code result.0.0 Code.ok ≡ false
      → result.0.1 ≡ none
      → Effect w
          (threw
            (meaning result.0.0.code (text_or S "Unknown error" result.1 (S.to_string result.0.0))))
          result.1
          (open_at path o w)
  unfolding open_at rocksdb_options_destroy rocksdb_open new
  Effect-open_at failed empty =
      let c : Cell S = options (library_options S o) in
      let result = S.open_db (library_options S o) path w.engine in
      Effect-with_handle (create_handle o) rocksdb_options_destroy _ c _ result.1 sound
        (create_in_range sound o fit) (λ p. refl)
        (rw
          (
            load_options-old sound o (db new_handle),
            empty,
            store-fresh
                (IsSound-later (IsSound-with_cell sound c) (w.next + 1) result.1 (omega arith))
                (db new_handle) (db new_handle),
          )
          (take_back (IsSound-with_cell sound c) path "Failed to open database" false result.0.0
            result.1 failed))
