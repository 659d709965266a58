-- ===== src/Client/AccessOptions/Handles.antt =====
-- `createHandle` of the read and write options in RocksDBOptions.swift.
use rock_db_swift.Prelude.{◌≡◌}
use rock_db_swift.System.{
  System, ReadOptions, WriteOptions, new_read_options, new_write_options, new_scan_options,
}
use rock_db_swift.Memory.{read_options, write_options, World, ok}
use rock_db_swift.Memory.Effects.{IsSound, with_cell}
use rock_db_swift.Prelude.Int.{to_bool-to_int}
use rock_db_swift.Bridge.AccessOptions.Fresh.{modify_read_options-fresh, modify_write_options-fresh}
use rock_db_swift.Client.AccessOptions.{
  RocksDbReadOptions, RocksDbWriteOptions, create_read_handle, create_write_handle,
}

module _ (S : System) where
  -- The library's options that a Swift value stands for.
  abbrev pub library_read_options : RocksDbReadOptions → ReadOptions
  library_read_options o = record new_read_options {
    verify_checksums = o.verify_checksums;
    fill_cache = o.fill_cache;
    scans = record new_scan_options { prefix_same_as_start = o.prefix_same_as_start };
  }

  abbrev pub library_write_options : RocksDbWriteOptions → WriteOptions
  library_write_options o = record new_write_options { sync = o.sync; disable_wal = o.disable_wal }

module _ {S : System} (w : World S) (sound : IsSound w) where
  -- In a world whose allocations are recorded, `createHandle` of write options makes one new
  -- handle with the caller's two flags.
  pub create_write_handle_lem :
      (o : RocksDbWriteOptions)
      → create_write_handle o w
        ≡ ok w.next (with_cell w (write_options (library_write_options S o)))
  unfolding create_write_handle
  create_write_handle_lem o = simp (modify_write_options-fresh sound, to_bool-to_int)

  -- In a world whose allocations are recorded, `createHandle` of read options makes one new handle
  -- with the library's defaults and the caller's three flags.
  pub create_read_handle_lem :
      (o : RocksDbReadOptions)
      → create_read_handle o w ≡ ok w.next (with_cell w (read_options (library_read_options S o)))
  unfolding create_read_handle
  create_read_handle_lem o = simp (modify_read_options-fresh sound, to_bool-to_int)
