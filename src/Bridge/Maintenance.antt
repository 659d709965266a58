-- ===== src/Bridge/Maintenance.antt =====
-- "Snapshot Operations" and "Maintenance Operations" of RocksDBBridge.cpp.
pub mod Sizes
use rock_db_swift.Prelude.{
  ℕ, zero, suc, ◌+◌, String, Option, none, some, List, [], ◌∷◌, Bytes, ◌==◌, if◌then◌else◌,
  get_elem?,
}
use rock_db_swift.Prelude.Int.{ℤ, pos, negsuc, to_bool}
use rock_db_swift.System.{System, Range, new_flush_options, new_compact_range_options}
use rock_db_swift.Memory.{
  Ptr, null, snapshot, M, pure, stop, dangling, ◌>>=◌, ◌>>◌, call, effect, ask, new, store, free,
  strdup, load_snapshot,
}
use rock_db_swift.Bridge.Status.{CStatus, make_status, null_argument}
use rock_db_swift.Bridge.Database.{live_db}

-- `key && key_len > 0`: a null key and an empty key both mean no bound.
unfoldable pub bound : Option Bytes → Option Bytes
bound none = none
bound (some []) = none
bound (some (b ∷ key)) = some (b ∷ key)

module _ {S : System} where
  unfoldable pub rocksdb_create_snapshot : Ptr → M S Ptr
  rocksdb_create_snapshot database = do
    live ← live_db database
    elim live [
      | none ↦ pure null
      | some d ↦ do
        handle ← new (snapshot none)
        s ← call S (S.get_snapshot d)
        store handle (snapshot s)
        pure handle
    ]

  -- `snapshot && snapshot->snapshot`
  live_snapshot : Ptr → M S (Option ℕ)
  live_snapshot p = if p == null then pure none else load_snapshot p

  unfoldable pub rocksdb_release_snapshot : Ptr → Ptr → M S (Unit {0})
  unfolding live_snapshot
  rocksdb_release_snapshot database p = do
    live ← live_db database
    elim live [
      | none ↦ pure tt
      | some d ↦ do
        held ← live_snapshot p
        elim held [ none ↦ pure tt | some s ↦ effect S (S.release_snapshot d s) ]
    ]
    free p

  unfoldable pub rocksdb_compact_range : Ptr → Option Bytes → Option Bytes → M S CStatus
  rocksdb_compact_range database start_key end_key = do
    live ← live_db database
    elim live [
      | none ↦ null_argument "Database is null"
      | some d ↦ do
        s ← call S (S.compact_range d new_compact_range_options (bound start_key) (bound end_key))
        make_status s
    ]

  unfoldable pub rocksdb_flush : Ptr → ℕ → M S CStatus
  rocksdb_flush database wait = do
    live ← live_db database
    elim live [
      | none ↦ null_argument "Database is null"
      | some d ↦ do
        s ← call S (S.flush d (record new_flush_options { wait = to_bool wait }))
        make_status s
    ]

  -- `strdup(value.c_str())` of a property that the library knows.
  unfoldable pub copied_property : Option Bytes → M S Ptr
  copied_property none = pure null
  copied_property (some value) = strdup value

  unfoldable pub rocksdb_get_property : Ptr → String → M S Ptr
  rocksdb_get_property database property = do
    live ← live_db database
    elim live [
      | none ↦ pure null
      | some d ↦ do found ← ask S (S.get_property d property); copied_property found
    ]

  -- One element of a C array; a read past its end is a fault.
  element : List Bytes → ℕ → M S Bytes
  element keys i = elim (get_elem? keys i) [ none ↦ stop dangling | some key ↦ pure key ]

  -- The loop over the ranges, with the rounds left and `i`.
  ranges : ℕ → ℕ → List Bytes → List Bytes → M S (List Range)
  unfolding element
  ranges zero i start_keys end_keys = pure []
  ranges (suc rounds) i start_keys end_keys = do
    start_key ← element start_keys i
    end_key ← element end_keys i
    rest ← ranges rounds (i + 1) start_keys end_keys
    pure (record { start = start_key; limit = end_key } ∷ rest)

  -- The sizes written to `sizes_out`; `none` if nothing is written.
  unfoldable pub rocksdb_get_approximate_sizes :
      Ptr → ℤ → List Bytes → List Bytes → M S (Option (List ℕ))
  unfolding ranges
  rocksdb_get_approximate_sizes database num_ranges start_keys end_keys = do
    live ← live_db database
    elim live [
      | none ↦ pure none
      | some d ↦ elim num_ranges [
        | negsuc _ ↦ pure none
        | pos zero ↦ pure none
        | pos (suc n) ↦ do
          rs ← ranges (suc n) 0 start_keys end_keys
          ask S (λ s. some (S.get_approximate_sizes d rs s))
      ]
    ]
