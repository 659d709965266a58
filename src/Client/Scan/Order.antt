-- ===== src/Client/Scan/Order.antt =====
-- The library's default order of keys, byte by byte, and the prefix test of `forEachWithPrefix` in
-- RocksDB.swift.
use rock_db_swift.Prelude.{
  ◌≡◌, refl, Bool, true, false, ◌&&◌, [], ◌∷◌, Bytes, arith, ltb, ◌==◌, if◌then◌else◌,
}
use rock_db_swift.Client.Scan.{bytes_eq, matches}

-- `BytewiseComparator`: the first key is not after the second.
unfoldable pub le_bytes : Bytes → Bytes → Bool
le_bytes [] k = true
le_bytes (b ∷ j) [] = false
le_bytes (b ∷ j) (c ∷ k) = let rest = le_bytes j k in if ltb b c then true else (b == c && rest)

-- `==` of two `Data` decides equality.
pub bytes_eq-same : (k : Bytes) → bytes_eq k k ≡ true
unfolding bytes_eq
bytes_eq-same [] = refl
bytes_eq-same (b ∷ k) = ground (arith, bytes_eq-same k)

pub bytes_eq-eq : (j k : Bytes) → bytes_eq j k ≡ true → j ≡ k
unfolding bytes_eq
bytes_eq-eq [] [] h = refl
bytes_eq-eq [] (c ∷ k) h = ground arith
bytes_eq-eq (b ∷ j) [] h = ground arith
bytes_eq-eq (b ∷ j) (c ∷ k) h = ground (arith, bytes_eq-eq j k)

-- The first byte string begins the second.
unfoldable pub is_prefix : Bytes → Bytes → Bool
is_prefix [] k = true
is_prefix (b ∷ p) [] = false
is_prefix (b ∷ p) (c ∷ k) = b == c && is_prefix p k

-- The test of `forEachWithPrefix`, a comparison of lengths and of the leading bytes, holds exactly
-- if the first byte string begins the second.
pub matches-is_prefix : (p k : Bytes) → matches p k ≡ is_prefix p k
unfolding matches is_prefix bytes_eq
matches-is_prefix [] k = ground arith
matches-is_prefix (b ∷ p) [] = ground arith
matches-is_prefix (b ∷ p) (c ∷ k) = ground (arith, matches-is_prefix p k)

pub le_bytes-of_prefix : (p k : Bytes) → is_prefix p k ≡ true → le_bytes p k ≡ true
unfolding is_prefix le_bytes
le_bytes-of_prefix [] k h = refl
le_bytes-of_prefix (b ∷ p) [] h = h
le_bytes-of_prefix (b ∷ p) (c ∷ k) h = ground (arith, le_bytes-of_prefix p k)

pub le_bytes_trans :
    (i j k : Bytes) → le_bytes i j ≡ true → le_bytes j k ≡ true → le_bytes i k ≡ true
unfolding le_bytes
le_bytes_trans [] j k h g = refl
le_bytes_trans (a ∷ i) [] k h g = ground arith
le_bytes_trans (a ∷ i) (b ∷ j) [] h g = g
le_bytes_trans (a ∷ i) (b ∷ j) (c ∷ k) h g = ground (arith, le_bytes_trans i j k)

-- The keys with a prefix stand together: past the first key that is not before the prefix and does
-- not have it, no key has it.
pub no_prefix_after :
    (p j k : Bytes)
    → le_bytes p j ≡ true
    → is_prefix p j ≡ false
    → le_bytes j k ≡ true
    → is_prefix p k ≡ false
unfolding is_prefix le_bytes
no_prefix_after [] j k h n g = absurd (ground arith)
no_prefix_after (a ∷ p) [] k h n g = ground arith
no_prefix_after (a ∷ p) (b ∷ j) [] h n g = ground arith
no_prefix_after (a ∷ p) (b ∷ j) (c ∷ k) h n g = ground (arith, no_prefix_after p j k)
