-- ===== src/Bridge/Maintenance/Sizes.antt =====
-- The loop of `rocksdb_get_approximate_sizes` over the arrays of keys.
use rock_db_swift.Prelude.{
  ℕ, zero, suc, ◌+◌, ◌≡◌, refl, ap, ◌∙◌, some, List, [], ◌∷◌, Bytes, arith, length, get_elem?,
}
use rock_db_swift.Prelude.Int.{pos}
use rock_db_swift.System.{System, Range}
use rock_db_swift.Memory.{Ptr, World, ok}
use rock_db_swift.Bridge.Database.Live.{Live, live_db-Live}
use rock_db_swift.Bridge.Maintenance.{rocksdb_get_approximate_sizes, ranges, element}

abbrev drop : ℕ → List Bytes → List Bytes
drop zero xs = xs
drop (suc n) [] = []
drop (suc n) (x ∷ xs) = drop n xs

-- One step of the index.
next_drop :
    (i : ℕ) (xs : List Bytes) {rest : List Bytes} → drop (suc i) xs ≡ rest → drop (i + 1) xs ≡ rest
next_drop i xs e = let step : i + 1 ≡ suc i = omega arith in ap (λ j. drop j xs) step ∙ e

get_elem?-drop :
    (i : ℕ) (xs : List Bytes) {x : Bytes} {rest : List Bytes}
    → drop i xs ≡ x ∷ rest
    → (get_elem? xs i ≡ some x) × (drop (suc i) xs ≡ rest)
get_elem?-drop zero [] e = absurd (ground (arith, e))
get_elem?-drop zero (y ∷ xs) e = ground (arith, e)
get_elem?-drop (suc i) [] e = absurd (ground (arith, e))
get_elem?-drop (suc i) (y ∷ xs) e = get_elem?-drop i xs e

-- The ranges that two arrays of keys give.
abbrev pub zip_ranges : List Bytes → List Bytes → List Range
zip_ranges [] es = []
zip_ranges (s ∷ ss) [] = []
zip_ranges (s ∷ ss) (e ∷ es) = record { start = s; limit = e } ∷ zip_ranges ss es

element-found :
    {S : System} (keys : List Bytes) (i : ℕ) (key : Bytes) (w : World S)
    → get_elem? keys i ≡ some key
    → element keys i w ≡ ok key w
unfolding element
element-found keys i key w e = rw (element, e)

module _ {S : System} (w : World S) (starts ends : List Bytes) where
  ranges-zip_ranges :
      (rounds : ℕ) (ss es : List Bytes) (i : ℕ)
      → drop i starts ≡ ss
      → drop i ends ≡ es
      → length ss ≡ rounds
      → length es ≡ rounds
      → ranges rounds i starts ends w ≡ ok (zip_ranges ss es) w
  unfolding ranges
  ranges-zip_ranges zero [] es i e f many same = refl
  ranges-zip_ranges zero (s ∷ ss) es i e f many same = absurd (omega (arith, many))
  ranges-zip_ranges (suc n) [] es i e f many same = absurd (omega (arith, many))
  ranges-zip_ranges (suc n) (s ∷ ss) [] i e f many same = absurd (omega (arith, same))
  ranges-zip_ranges (suc n) (s ∷ ss) (t ∷ es) i e f many same =
      let (found, rest) = get_elem?-drop i starts e in
      let (found', rest') = get_elem?-drop i ends f in
      rw (
        element-found starts i s w found,
        element-found ends i t w found',
        ranges-zip_ranges n ss es (i + 1) (next_drop i starts rest) (next_drop i ends rest')
            (omega (arith, many)) (omega (arith, same)),
      )

  -- On an open database, for a positive number of ranges and two arrays with as many keys each,
  -- `rocksdb_get_approximate_sizes` reads inside the arrays, asks the library once for the ranges
  -- from each start key to its end key, in order, and changes nothing.
  pub rocksdb_get_approximate_sizes-Live :
      {p : Ptr} {d : ℕ} (n : ℕ)
      → Live w p d
      → length starts ≡ suc n
      → length ends ≡ suc n
      → rocksdb_get_approximate_sizes p (pos (suc n)) starts ends w
        ≡ ok (some (S.get_approximate_sizes d (zip_ranges starts ends) w.engine)) w
  unfolding rocksdb_get_approximate_sizes
  rocksdb_get_approximate_sizes-Live n live many same =
      rw (live_db-Live live, ranges-zip_ranges (suc n) starts ends 0 refl refl many same)
