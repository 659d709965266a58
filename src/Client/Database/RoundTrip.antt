-- ===== src/Client/Database/RoundTrip.antt =====
-- Sequences of `put`, `delete` and `get` of RocksDB.swift, over a library that keeps what it is given.
use rock_db_swift.Prelude.{ℕ, ◌≡◌, sym, ◌∙◌, ◌≢◌, true, Option, none, some, Bytes, length}
use rock_db_swift.System.{System, Code, Status, ReadOptions, WriteOptions}
use rock_db_swift.Memory.{Ptr, World}
use rock_db_swift.Memory.Effects.{IsSound, IsSound-later, Effect, Effect-bind}
use rock_db_swift.Bridge.Database.Live.{Live}
use rock_db_swift.Client.Error.{returned}
use rock_db_swift.Client.AccessOptions.{RocksDbReadOptions, RocksDbWriteOptions}
use rock_db_swift.Client.AccessOptions.Handles.{library_read_options, library_write_options}
use rock_db_swift.Client.Database.{RocksDb, put, get, delete, ◌>>?◌, resume}
use rock_db_swift.Client.Database.Writes.{Effect-put, Effect-delete}
use rock_db_swift.Client.Database.Reads.{Effect-get, fetched}

-- The documented behaviour of a database of the library: a map from keys to values. `Put` and
-- `Delete` that report OK have changed it, `Get` reads it.
pub record IsStore (S : System) (d : ℕ) (o : ReadOptions) : Type 0 where
  pub content : S.State → Bytes → Option Bytes
  pub put_stores :
      (v : WriteOptions) (k x : Bytes) (s : S.State)
      → (S.put d v k x s).0.code ≡ Code.ok
      → content (S.put d v k x s).1 k ≡ some x
  pub put_keeps :
      (v : WriteOptions) (k x j : Bytes) (s : S.State)
      → j ≢ k
      → content (S.put d v k x s).1 j ≡ content s j
  pub delete_removes :
      (v : WriteOptions) (k : Bytes) (s : S.State)
      → (S.delete d v k s).0.code ≡ Code.ok
      → content (S.delete d v k s).1 k ≡ none
  pub delete_keeps :
      (v : WriteOptions) (k j : Bytes) (s : S.State)
      → j ≢ k
      → content (S.delete d v k s).1 j ≡ content s j
  pub get_keeps : (k j : Bytes) (s : S.State) → content (S.get d o k s).1 j ≡ content s j
  pub get_reads :
      (k x : Bytes) (s : S.State)
      → content s k ≡ some x
      → ((S.get d o k s).0.0.code ≡ Code.ok) × ((S.get d o k s).0.1 ≡ x)
  pub get_misses :
      (k : Bytes) (s : S.State) → content s k ≡ none → (S.get d o k s).0.0.code ≡ Code.not_found

pub fetched-present :
    (S : System) (t : S.State) (s : Status) (bytes value : Bytes)
    → s.code ≡ Code.ok
    → bytes ≡ value
    → S.grants t (length value) ≡ true
    → fetched S t s bytes ≡ returned (some value)
fetched-present S t s bytes value c x g = rw (c, x, g)

pub fetched-absent :
    (S : System) (t : S.State) (s : Status) (bytes : Bytes)
    → s.code ≡ Code.not_found
    → fetched S t s bytes ≡ returned none
fetched-absent S t s bytes c = rw c

module _ {S : System} {w : World S} (sound : IsSound w) {p : Ptr} {d : ℕ} (live : Live w p d) where
  pub Live-after : (n : Ptr) (s : S.State) → Live (record w { next = n; engine = s }) p d
  Live-after n s = record {
    handle = live.handle;
    at = record { ne_null = live.at.ne_null; holds = live.at.holds };
    live = live.live;
  }

  module _ (r : RocksDb) (e : r.handle ≡ some p) (o : RocksDbReadOptions) (v : RocksDbWriteOptions)
      (store : IsStore S d (library_read_options S o)) where
    -- Over a library database that behaves as a map from keys to values, a `put` that the library
    -- accepts, followed by a `get` of its key, returns the value, provided that the allocator
    -- grants room for the copy; the heap is left as it was.
    pub put-get :
        (value key : Bytes)
        → let written = S.put d (library_write_options S v) key value w.engine in
          let found = S.get d (library_read_options S o) key written.1 in
          written.0.code ≡ Code.ok
          → S.grants found.1 (length value) ≡ true
          → Effect w (returned (some value)) found.1 ((put r value key v >>? λ _. get r key o) w)
    put-get value key fine granted =
        let written = S.put d (library_write_options S v) key value w.engine in
        let found = S.get d (library_read_options S o) key written.1 in
        let stored = store.put_stores (library_write_options S v) key value w.engine fine in
        let (c, x) = store.get_reads key value written.1 stored in
        Effect-bind (resume (λ _. get r key o)) (Effect-put sound live r value key v e) (λ n h.
          rw (fine) (
            rw (sym (fetched-present S found.1 found.0.0 found.0.1 value c x granted))
              (Effect-get (IsSound-later sound n written.1 h) (Live-after n written.1) r key o e)))

    -- Over a library database that behaves as a map from keys to values, after a `put` that the
    -- library accepts, `get` of another key that was absent still returns nil; the heap is left as
    -- it was.
    pub put-get_other :
        (value key other : Bytes)
        → other ≢ key
        → let written = S.put d (library_write_options S v) key value w.engine in
          let found = S.get d (library_read_options S o) other written.1 in
          store.content w.engine other ≡ none
          → written.0.code ≡ Code.ok
          → Effect w (returned none) found.1 ((put r value key v >>? λ _. get r other o) w)
    put-get_other value key other ne absent fine =
        let written = S.put d (library_write_options S v) key value w.engine in
        let found = S.get d (library_read_options S o) other written.1 in
        let kept = store.put_keeps (library_write_options S v) key value other w.engine ne in
        let c = store.get_misses other written.1 (kept ∙ absent) in
        Effect-bind (resume (λ _. get r other o)) (Effect-put sound live r value key v e) (λ n h.
          rw (fine) (
            rw (sym (fetched-absent S found.1 found.0.0 found.0.1 c)) (
              Effect-get (IsSound-later sound n written.1 h) (Live-after n written.1) r other o e)))

    -- Over a library database that behaves as a map from keys to values, after a `delete` that the
    -- library accepts, `get` of the key returns nil; the heap is left as it was.
    pub delete-get :
        (key : Bytes)
        → let erased = S.delete d (library_write_options S v) key w.engine in
          let found = S.get d (library_read_options S o) key erased.1 in
          erased.0.code ≡ Code.ok
          → Effect w (returned none) found.1 ((delete r key v >>? λ _. get r key o) w)
    delete-get key fine =
        let erased = S.delete d (library_write_options S v) key w.engine in
        let found = S.get d (library_read_options S o) key erased.1 in
        let c =
          store.get_misses key erased.1
            (store.delete_removes (library_write_options S v) key w.engine fine) in
        Effect-bind (resume (λ _. get r key o)) (Effect-delete sound live r key v e) (λ n h.
          rw (fine) (
            rw (sym (fetched-absent S found.1 found.0.0 found.0.1 c))
              (Effect-get (IsSound-later sound n erased.1 h) (Live-after n erased.1) r key o e)))
