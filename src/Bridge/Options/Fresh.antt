-- ===== src/Bridge/Options/Fresh.antt =====
-- What the setters do to an options handle that has just been made.
use rock_db_swift.Prelude.{◌≡◌, refl}
use rock_db_swift.System.{System, Options}
use rock_db_swift.Memory.{options, World, ok}
use rock_db_swift.Memory.Effects.{IsSound, with_cell, load-fresh, store-fresh}
use rock_db_swift.Bridge.Options.{rocksdb_options_create, modify_options}

-- The world in which an options handle has just been made.
unfoldable pub made : {S : System} → World S → Options S.Extra → World S
made w o = with_cell w (options o)

module _ {S : System} (w : World S) (sound : IsSound w) where
  pub rocksdb_options_create-made : rocksdb_options_create w ≡ ok w.next (made w S.default_options)
  unfolding rocksdb_options_create made
  rocksdb_options_create-made = refl

  pub modify_options-made :
      (f : Options S.Extra → Options S.Extra) (o : Options S.Extra)
      → modify_options w.next f (made w o) ≡ ok tt (made w (f o))
  unfolding modify_options made
  modify_options-made f o =
      rw (load-fresh sound (options o)) (store-fresh sound (options o) (options (f o)))
