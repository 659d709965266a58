-- ===== src/Client/Scan/Prefix.antt =====
-- The entries that the loop of `forEachWithPrefix` in RocksDB.swift meets, in a database sorted by key.
use rock_db_swift.Prelude.{
  ◌≤◌, length, ◌≡◌, refl, Bool, true, false, [], ◌∷◌, Bytes, arith, if◌then◌else◌, List, Bool-cases,
  inl, inr,
}
use rock_db_swift.Client.Iterator.{Entry}
use rock_db_swift.Client.Scan.Order.{
  le_bytes, is_prefix, le_bytes-of_prefix, le_bytes_trans, no_prefix_after,
}

module _ (keep : Bytes → Bool) where
  abbrev pub take_while : List Entry → List Entry
  take_while [] = []
  take_while ((k, x) ∷ es) = let rest = take_while es in if keep k then (k, x) ∷ rest else []

  abbrev pub select : List Entry → List Entry
  select [] = []
  select ((k, x) ∷ es) = let rest = select es in if keep k then (k, x) ∷ rest else rest

-- What an iterator has before it after `Seek`.
abbrev pub from_key : Bytes → List Entry → List Entry
from_key target [] = []
from_key target ((k, x) ∷ es) =
    let rest = from_key target es in if le_bytes target k then (k, x) ∷ es else rest

abbrev pub AllAfter : Bytes → List Entry → Type 0
AllAfter j [] = Unit {0}
AllAfter j ((k, x) ∷ es) = (le_bytes j k ≡ true) × AllAfter j es

abbrev pub IsSorted : List Entry → Type 0
IsSorted [] = Unit {0}
IsSorted ((k, x) ∷ es) = AllAfter k es × IsSorted es

AllAfter-trans :
    (i j : Bytes) (es : List Entry) → le_bytes i j ≡ true → AllAfter j es → AllAfter i es
AllAfter-trans i j [] h a = tt
AllAfter-trans i j ((k, x) ∷ es) h (g, a) = (le_bytes_trans i j k h g, AllAfter-trans i j es h a)

select_none :
    (p j : Bytes) (es : List Entry)
    → le_bytes p j ≡ true
    → is_prefix p j ≡ false
    → AllAfter j es
    → select (is_prefix p) es ≡ []
select_none p j [] h n a = refl
select_none p j ((k, x) ∷ es) h n (g, a) =
    rw (no_prefix_after p j k h n g, select_none p j es h n a)

take_while-select :
    (p : Bytes) (es : List Entry)
    → AllAfter p es
    → IsSorted es
    → take_while (is_prefix p) es ≡ select (is_prefix p) es
take_while-select p [] a s = refl
take_while-select p ((k, x) ∷ es) (g, a) (b, s) = elim (Bool-cases (is_prefix p k)) [
  | inl has ↦ rw (has, take_while-select p es a s)
  | inr lacks ↦ rw (lacks, select_none p k es g lacks b)
]

not_prefix_before : (p k : Bytes) → le_bytes p k ≡ false → is_prefix p k ≡ false
not_prefix_before p k h = ground (arith, le_bytes-of_prefix p k)

pub take_while-from_key :
    (p : Bytes) (es : List Entry)
    → IsSorted es
    → take_while (is_prefix p) (from_key p es) ≡ select (is_prefix p) es
take_while-from_key p [] s = refl
take_while-from_key p ((k, x) ∷ es) (b, s) = elim (Bool-cases (le_bytes p k)) [
  | inl after ↦
      rw after (take_while-select p ((k, x) ∷ es) (after, AllAfter-trans p k es after b) (b, s))
  | inr before ↦ rw (before, not_prefix_before p k before) (take_while-from_key p es s)
]

pub length-from_key : (p : Bytes) (es : List Entry) → length (from_key p es) ≤ length es
length-from_key p [] = omega arith
length-from_key p ((k, x) ∷ es) = ground (arith, length-from_key p es)
