-- ===== src/Client/Options/Handles.antt =====
-- `createHandle` of the database options in RocksDBOptions.swift: the handle that is made, and the trap.
use rock_db_swift.Prelude.{
  ℕ, ◌≡◌, refl, Bool, true, false, ◌&&◌, Option, some, none, if◌then◌else◌, Bool-cases, inl, inr,
}
use rock_db_swift.Prelude.Int.{ℤ, fits_int32, to_size, to_byte, to_bool-to_int}
use rock_db_swift.System.{System, Options}
use rock_db_swift.Memory.{options, World, ok, fault, trap, M, and_then}
use rock_db_swift.Memory.Effects.{IsSound, with_cell}
use rock_db_swift.Bridge.Options.{
  rocksdb_options_enable_statistics, rocksdb_options_optimize_for_point_lookup,
  rocksdb_options_optimize_level_style_compaction,
}
use rock_db_swift.Bridge.Options.Fresh.{made, rocksdb_options_create-made, modify_options-made}
use rock_db_swift.Client.Options.{
  RocksDbOptions, raw_value, int32, enable_statistics_if, optimize_for_point_lookup_if,
  optimize_level_style_compaction_if, create_handle,
}

-- All seven `Int` settings that become an `Int32` are in its range.
abbrev pub fits : RocksDbOptions → Bool
fits o =
    fits_int32 o.max_write_buffer_number
    && (fits_int32 o.max_open_files
        && (fits_int32 o.max_background_compactions
            && (fits_int32 o.max_background_flushes
                && (fits_int32 o.level0_file_num_compaction_trigger
                    && (fits_int32 o.level0_slowdown_writes_trigger
                        && (fits_int32 o.level0_stop_writes_trigger))))))

module _ (S : System) where
  -- The assignments to fields, in the library's terms.
  abbrev pub assigned : RocksDbOptions → Options S.Extra
  assigned o = record S.default_options {
    db = record S.default_options.db {
      create_if_missing = o.create_if_missing;
      error_if_exists = o.error_if_exists;
      paranoid_checks = o.paranoid_checks;
    };
    resources = record S.default_options.resources {
      max_open_files = o.max_open_files;
      max_background_compactions = o.max_background_compactions;
    };
    compression = to_byte (raw_value o.compression);
    write_buffer_size = to_size o.write_buffer_size;
    max_write_buffer_number = o.max_write_buffer_number;
    max_background_flushes = o.max_background_flushes;
    level0_file_num_compaction_trigger = o.level0_file_num_compaction_trigger;
    level0_slowdown_writes_trigger = o.level0_slowdown_writes_trigger;
    level0_stop_writes_trigger = o.level0_stop_writes_trigger;
    target_file_size_base = o.target_file_size_base;
    max_bytes_for_level_base = o.max_bytes_for_level_base;
  }

  abbrev pub with_statistics : Bool → Options S.Extra → Options S.Extra
  with_statistics false l = l
  with_statistics true l = record l { resources = record l.resources { statistics = true } }

  abbrev pub with_size :
      (ℕ → Options S.Extra → Options S.Extra) → Option ℕ → Options S.Extra → Options S.Extra
  with_size f none l = l
  with_size f (some n) l = f n l

  -- The library's options that a Swift value stands for: the presets come after the assignments.
  abbrev pub library_options : RocksDbOptions → Options S.Extra
  library_options o =
      with_size S.optimize_level_style_compaction o.optimize_level_style_compaction (
        with_size S.optimize_for_point_lookup o.optimize_for_point_lookup
          (with_statistics o.enable_statistics (assigned o)))

if_and :
    {A : Type 0} (a b : Bool) (x y : A)
    → (if a && b then x else y) ≡ (if a then (if b then x else y) else y)
if_and true b x y = refl
if_and false b x y = refl

int32-bind :
    {S : System} {A : Type 0} (v : ℤ) (k : ℤ → M S A) (w : World S)
    → and_then (int32 v w) k ≡ (if fits_int32 v then k v w else fault trap)
unfolding int32
int32-bind v k w = elim (Bool-cases (fits_int32 v)) [
  | inl yes_it ↦ rw yes_it
  | inr not_it ↦ rw not_it
]

module _ {S : System} (w : World S) (sound : IsSound w) where
  enable_statistics_if_lem :
      (b : Bool) (l : Options S.Extra)
      → enable_statistics_if b w.next (made w l) ≡ ok tt (made w (with_statistics S b l))
  unfolding enable_statistics_if rocksdb_options_enable_statistics
  enable_statistics_if_lem false l = refl
  enable_statistics_if_lem true l = modify_options-made w sound _ l

  optimize_for_point_lookup_if_lem :
      (size : Option ℕ) (l : Options S.Extra)
      → optimize_for_point_lookup_if size w.next (made w l)
        ≡ ok tt (made w (with_size S S.optimize_for_point_lookup size l))
  unfolding optimize_for_point_lookup_if rocksdb_options_optimize_for_point_lookup
  optimize_for_point_lookup_if_lem none l = refl
  optimize_for_point_lookup_if_lem (some n) l = modify_options-made w sound _ l

  optimize_level_style_compaction_if_lem :
      (budget : Option ℕ) (l : Options S.Extra)
      → optimize_level_style_compaction_if budget w.next (made w l)
        ≡ ok tt (made w (with_size S S.optimize_level_style_compaction budget l))
  unfolding optimize_level_style_compaction_if rocksdb_options_optimize_level_style_compaction
  optimize_level_style_compaction_if_lem none l = refl
  optimize_level_style_compaction_if_lem (some n) l = modify_options-made w sound _ l

  -- In a world whose allocations are recorded, `createHandle` makes one new handle that holds the
  -- options the Swift value stands for, its presets applied after its assignments, if all seven
  -- settings that become an `Int32` are in range, and stops the process otherwise.
  pub create_handle_lem :
      (o : RocksDbOptions)
      → create_handle o w
        ≡ (if fits o then ok w.next (with_cell w (options (library_options S o))) else fault trap)
  unfolding create_handle made
  create_handle_lem o = simp (
    rocksdb_options_create-made w sound,
    modify_options-made w sound,
    to_bool-to_int,
    int32-bind,
    if_and,
    enable_statistics_if_lem,
    optimize_for_point_lookup_if_lem,
    optimize_level_style_compaction_if_lem,
  )
