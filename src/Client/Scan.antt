-- ===== src/Client/Scan.antt =====
-- RocksDB.swift: `forEach` and `forEachWithPrefix`. The loops run on fuel; the closure may do anything
-- that a command can do, but has no access to the iterator.
pub mod Order
pub mod Prefix
pub mod Walk
pub mod Visits
pub mod Loops
use rock_db_swift.Prelude.{
  ℕ, zero, suc, Bool, true, false, not, ◌&&◌, Option, none, some, [], ◌∷◌, Bytes, ◌==◌, leb,
  if◌then◌else◌, length, take,
}
use rock_db_swift.System.{System}
use rock_db_swift.Memory.{M, pure, stop, out_of_fuel, ◌>>=◌, ◌>>◌}
use rock_db_swift.Client.Error.{Throws, returned, threw}
use rock_db_swift.Client.AccessOptions.{default_read_options}
use rock_db_swift.Client.Database.{RocksDb, ◌>>?◌}
use rock_db_swift.Client.Iterator.{
  RocksDbIterator, Entry, make_iterator, close, is_valid, seek_to_first, seek, next, key, value,
  check_status,
}

-- `==` of two `Data`.
unfoldable pub bytes_eq : Bytes → Bytes → Bool
bytes_eq [] [] = true
bytes_eq [] (c ∷ cs) = false
bytes_eq (b ∷ bs) [] = false
bytes_eq (b ∷ bs) (c ∷ cs) = b == c && bytes_eq bs cs

-- `key.count >= prefix.count && key.prefix(prefix.count) == prefix`
unfoldable pub matches : Bytes → Bytes → Bool
matches prefix k = leb (length prefix) (length k) && bytes_eq (take (length prefix) k) prefix

module _ {S : System} where
  -- The body of both loops: `keep` is the guard on the key, `none` leaves the loop.
  unfoldable pub scan_loop :
      ℕ
      → (Bytes → Bool)
      → (Bytes → Bytes → M S (Throws Bool))
      → RocksDbIterator
      → M S (Throws (Unit {0}))
  scan_loop zero keep body it = stop out_of_fuel
  scan_loop (suc fuel) keep body it =
      let again = scan_loop fuel keep body it in
      do
        v ← is_valid it
        if not v then pure (returned tt) else do
          found_key ← key it
          found_value ← value it
          elim found_key [
            | none ↦ pure (returned tt)
            | some k ↦ elim found_value [
              | none ↦ pure (returned tt)
              | some x ↦
                  if not (keep k)
                  then pure (returned tt)
                  else body k x >>? λ go. if not go then pure (returned tt) else next it >> again
            ]
          ]

  -- The loop, the check of the status behind it, and the deferred `close`.
  scan :
      ℕ
      → (Bytes → Bool)
      → (Bytes → Bytes → M S (Throws Bool))
      → RocksDbIterator
      → M S (Throws (Unit {0}))
  unfolding scan_loop
  scan fuel keep body it = do
    result ← (scan_loop fuel keep body it >>? λ _. check_status it)
    close it
    pure result

  unfoldable pub for_each :
      ℕ → RocksDb → (Bytes → Bytes → M S (Throws Bool)) → M S (Throws (Unit {0}))
  unfolding scan
  for_each fuel r body = make_iterator r default_read_options >>? λ it.
      seek_to_first it >> scan fuel (λ _. true) body it

  unfoldable pub for_each_with_prefix :
      ℕ → RocksDb → Bytes → (Bytes → Bytes → M S (Throws Bool)) → M S (Throws (Unit {0}))
  unfolding scan
  for_each_with_prefix fuel r prefix body = make_iterator r default_read_options >>? λ it.
      seek it prefix >> scan fuel (matches prefix) body it
