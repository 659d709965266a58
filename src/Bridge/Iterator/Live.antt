-- ===== src/Bridge/Iterator/Live.antt =====
-- The iterator functions of the bridge on a live iterator.
use rock_db_swift.Prelude.{ℕ, ◌≡◌, none, some, Bytes, arith, if◌then◌else◌}
use rock_db_swift.Prelude.Int.{to_int}
use rock_db_swift.System.{System}
use rock_db_swift.Memory.{Ptr, iterator, World, ok, fault, precondition, load_iterator}
use rock_db_swift.Memory.Effects.{At, load-At, not_null}
use rock_db_swift.Bridge.Status.{make_status}
use rock_db_swift.Bridge.Iterator.{
  live_iterator, rocksdb_iterator_valid, rocksdb_iterator_seek_to_first, rocksdb_iterator_seek,
  rocksdb_iterator_next, rocksdb_iterator_key, rocksdb_iterator_value, rocksdb_iterator_status,
}

module _ {S : System} {w : World S} {p : Ptr} {i : ℕ} (at : At w p (iterator (some i))) where
  pub load_iterator-At : load_iterator p w ≡ ok (some i) w
  unfolding load_iterator
  load_iterator-At = rw (load-At at)

  pub live_iterator-At : live_iterator p w ≡ ok (some i) w
  unfolding live_iterator
  live_iterator-At = rw (not_null at, load_iterator-At)

  pub valid-At : rocksdb_iterator_valid p w ≡ ok (to_int (S.valid i w.engine)) w
  unfolding rocksdb_iterator_valid
  valid-At = rw live_iterator-At

  pub seek_to_first-At :
      rocksdb_iterator_seek_to_first p w ≡ ok tt (record w { engine = S.seek_to_first i w.engine })
  unfolding rocksdb_iterator_seek_to_first
  seek_to_first-At = rw live_iterator-At

  pub seek-At :
      (key : Bytes)
      → rocksdb_iterator_seek p key w ≡ ok tt (record w { engine = S.seek i key w.engine })
  unfolding rocksdb_iterator_seek
  seek-At key = rw live_iterator-At

  pub next-At : rocksdb_iterator_next p w ≡ (
      if S.valid i w.engine
      then ok tt (record w { engine = S.next i w.engine })
      else fault precondition)
  unfolding rocksdb_iterator_next
  next-At = rw live_iterator-At (ground arith)

  pub key-At :
      rocksdb_iterator_key p w ≡ ok (if S.valid i w.engine then some (S.key i w.engine) else none) w
  unfolding rocksdb_iterator_key
  key-At = rw live_iterator-At (ground arith)

  pub value-At :
      rocksdb_iterator_value p w
      ≡ ok (if S.valid i w.engine then some (S.value i w.engine) else none) w
  unfolding rocksdb_iterator_value
  value-At = rw live_iterator-At (ground arith)

  pub status-At : rocksdb_iterator_status p w ≡ make_status (S.iterator_status i w.engine) w
  unfolding rocksdb_iterator_status
  status-At = rw live_iterator-At
