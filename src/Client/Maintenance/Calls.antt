-- ===== src/Client/Maintenance/Calls.antt =====
-- `keyMayExist` and the maintenance operations of RocksDB.swift on an open database.
use rock_db_swift.Prelude.{
  ℕ, ◌+◌, ◌≡◌, refl, Bool, true, false, not, Option, none, some, String, Bytes, ◌==◌, arith, length,
  if◌then◌else◌, Bool-cases, inl, inr,
}
use rock_db_swift.Prelude.Int.{to_int, to_bool-to_int}
use rock_db_swift.System.{System, new_flush_options, new_compact_range_options}
use rock_db_swift.Memory.{
  Ptr, Cell, buffer, read_options, World, ok, and_then, until_nul, strdup, new, load_buffer,
}
use rock_db_swift.Memory.Effects.{
  IsSound, IsSound-later, Effect, Effect-with_handle, Effect-call, Effect-pure, Effect-scope, At,
  At-new, with_cell, load-At,
}
use rock_db_swift.Bridge.Status.{rocksdb_free_string}
use rock_db_swift.Bridge.AccessOptions.{rocksdb_read_options_destroy}
use rock_db_swift.Bridge.Database.Live.{Live, live_db-Live, rocksdb_key_may_exist-Live}
use rock_db_swift.Bridge.Maintenance.{
  bound, rocksdb_compact_range, rocksdb_flush, rocksdb_get_property, copied_property,
}
use rock_db_swift.Client.Error.Reports.{reported, check-make_status}
use rock_db_swift.Client.AccessOptions.{RocksDbReadOptions, create_read_handle}
use rock_db_swift.Client.AccessOptions.Handles.{library_read_options, create_read_handle_lem}
use rock_db_swift.Client.Database.{RocksDb, key_may_exist, optional}
use rock_db_swift.Client.Database.Try.{optional-At}
use rock_db_swift.Client.Database.Writes.{Live-old}
use rock_db_swift.Client.Maintenance.{compact_range, flush, get_property, copied_text}

not_zero : (b : Bool) → not (to_int b == 0) ≡ b
unfolding to_int
not_zero true = refl
not_zero false = refl

module _ {S : System} {w : World S} (sound : IsSound w) {p : Ptr} {d : ℕ} (live : Live w p d)
    (r : RocksDb) (e : r.handle ≡ some p) where
  -- On an open database `keyMayExist` is the library's answer under the caller's options; the heap
  -- is left as it was.
  pub Effect-key_may_exist :
      (key : Bytes) (o : RocksDbReadOptions)
      → let result = S.key_may_exist d (library_read_options S o) key w.engine in
        Effect w result.0 result.1 (key_may_exist r key o w)
  unfolding key_may_exist rocksdb_read_options_destroy
  Effect-key_may_exist key o =
      let c : Cell S = read_options (library_read_options S o) in
      let result = S.key_may_exist d (library_read_options S o) key w.engine in
      rw e (
        Effect-with_handle (create_read_handle o) rocksdb_read_options_destroy _ c _ result.1 sound
          (create_read_handle_lem w sound o) (λ q. refl)
          (rw
            (
              rocksdb_key_may_exist-Live (Live-old sound c live) key (At-new sound c),
              not_zero result.0,
            )
            (Effect-call (Effect-pure _ _))))

  -- On an open database `flush` is one `Flush` of the library with its default options but the
  -- caller's `wait`; OK returns and any other status throws its error.
  pub Effect-flush :
      (wait : Bool)
      → let result = S.flush d (record new_flush_options { wait = wait }) w.engine in
        Effect w (reported S result.1 result.0) result.1 (flush r wait w)
  unfolding flush rocksdb_flush
  Effect-flush wait =
      rw (e, live_db-Live live, to_bool-to_int)
        (Effect-call (check-make_status _ (IsSound-later sound w.next _ (omega arith)) _))

  -- On an open database `compactRange` is one `CompactRange` of the library with its default
  -- options, a nil or empty key being no bound; OK returns and any other status throws its error.
  pub Effect-compact_range :
      (start_key end_key : Option Bytes)
      → let result =
          S.compact_range d new_compact_range_options (bound start_key) (bound end_key) w.engine in
        Effect w (reported S result.1 result.0) result.1 (compact_range r start_key end_key w)
  unfolding compact_range rocksdb_compact_range
  Effect-compact_range start_key end_key =
      rw (e, live_db-Live live)
        (Effect-call (check-make_status _ (IsSound-later sound w.next _ (omega arith)) _))

-- What a Swift caller sees of a property: its text up to the first zero byte, nil if the library
-- does not know it or the allocator refuses the copy.
abbrev pub shown : (S : System) → S.State → Option Bytes → Option String
shown S s none = none
shown S s (some value) =
    if S.grants s (length (until_nul value) + 1) then some (S.c_string (until_nul value)) else none

module _ {S : System} {w : World S} (sound : IsSound w) {p : Ptr} {d : ℕ} (live : Live w p d)
    (r : RocksDb) (e : r.handle ≡ some p) where
  read_text :
      (text : Bytes)
      → load_buffer w.next (with_cell w (buffer text)) ≡ ok text (with_cell w (buffer text))
  unfolding load_buffer
  read_text text = rw (load-At (At-new sound (buffer text)))

  copied_text-property :
      (found : Option Bytes)
      → Effect w (shown S w.engine found) w.engine (and_then (copied_property found w) copied_text)
  unfolding copied_property copied_text strdup new rocksdb_free_string
  copied_text-property none = unfold optional in Effect-pure _ _
  copied_text-property (some value) =
      let text : Bytes = until_nul value in
      let at : At (with_cell w (buffer text)) w.next (buffer text) = At-new sound (buffer text) in
      elim (Bool-cases (S.grants w.engine (length text + 1))) [
        | inl granted ↦
            rw (granted, optional-At at, copied_text)
              (rw (read_text text) (
                Effect-scope sound (buffer text) (some (S.c_string text)) w.engine _
                  (Effect-pure _ _)))
        | inr refused ↦ rw refused (unfold optional in Effect-pure _ _)
      ]

  -- On an open database `getProperty` is the text of the property up to its first zero byte, nil
  -- if the library does not know the property or the allocator refuses the copy; the copy is freed
  -- and the heap left as it was.
  pub Effect-get_property :
      (name : String)
      → Effect w
          (shown S w.engine (S.get_property d name w.engine))
          w.engine
          (get_property r name w)
  unfolding get_property rocksdb_get_property
  Effect-get_property name =
      rw (e, live_db-Live live) (copied_text-property (S.get_property d name w.engine))
