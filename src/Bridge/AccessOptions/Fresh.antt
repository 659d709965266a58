-- ===== src/Bridge/AccessOptions/Fresh.antt =====
-- What the setters do to a handle of read or write options that has just been made.
use rock_db_swift.Prelude.{◌≡◌}
use rock_db_swift.System.{System, ReadOptions, WriteOptions}
use rock_db_swift.Memory.{read_options, write_options, World, ok}
use rock_db_swift.Memory.Effects.{IsSound, with_cell, load-fresh, store-fresh}
use rock_db_swift.Bridge.AccessOptions.{modify_read_options, modify_write_options}

module _ {S : System} {w : World S} (sound : IsSound w) where
  pub modify_read_options-fresh :
      (f : ReadOptions → ReadOptions) (o : ReadOptions)
      → modify_read_options w.next f (with_cell w (read_options o))
        ≡ ok tt (with_cell w (read_options (f o)))
  unfolding modify_read_options
  modify_read_options-fresh f o =
      rw (load-fresh sound (read_options o))
        (store-fresh sound (read_options o) (read_options (f o)))

  pub modify_write_options-fresh :
      (f : WriteOptions → WriteOptions) (o : WriteOptions)
      → modify_write_options w.next f (with_cell w (write_options o))
        ≡ ok tt (with_cell w (write_options (f o)))
  unfolding modify_write_options
  modify_write_options-fresh f o =
      rw (load-fresh sound (write_options o))
        (store-fresh sound (write_options o) (write_options (f o)))
