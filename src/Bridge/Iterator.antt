-- ===== src/Bridge/Iterator.antt =====
-- "Iterator Operations" of RocksDBBridge.cpp. A key or value is copied out of the iterator's own
-- memory at once by every caller, so a non-null result is given by its bytes.
pub mod Live
use rock_db_swift.Prelude.{ℕ, Bool, Option, none, some, Bytes, ◌==◌, if◌then◌else◌}
use rock_db_swift.Prelude.Int.{to_int}
use rock_db_swift.System.{System}
use rock_db_swift.Memory.{
  Ptr, null, iterator, M, pure, ◌>>=◌, ◌>>◌, call, effect, ask, requires, new, store, free,
  load_iterator,
}
use rock_db_swift.Bridge.Status.{CStatus, make_status, null_argument}
use rock_db_swift.Bridge.AccessOptions.{read_options_or_default}
use rock_db_swift.Bridge.Database.{live_db}

module _ {S : System} where
  unfoldable pub rocksdb_iterator_create : Ptr → Ptr → M S Ptr
  rocksdb_iterator_create database opts = do
    live ← live_db database
    elim live [
      | none ↦ pure null
      | some d ↦ do
        o ← read_options_or_default opts
        handle ← new (iterator none)
        i ← call S (S.new_iterator d o)
        store handle (iterator i)
        pure handle
    ]

  -- `delete iter`, with the destructor of `RocksDBIteratorHandle`.
  unfoldable pub rocksdb_iterator_destroy : Ptr → M S (Unit {0})
  rocksdb_iterator_destroy p = if p == null then pure tt else do
    i ← load_iterator p
    elim i [ none ↦ pure tt | some i ↦ effect S (S.delete_iterator i) ]
    free p

  -- `iter->iter`, or null where the guard `iter && iter->iter` fails.
  unfoldable pub live_iterator : Ptr → M S (Option ℕ)
  live_iterator p = if p == null then pure none else load_iterator p

  unfoldable pub rocksdb_iterator_valid : Ptr → M S ℕ
  rocksdb_iterator_valid p = do
    live ← live_iterator p
    elim live [ none ↦ pure 0 | some i ↦ do v ← ask S (S.valid i); pure (to_int v) ]

  -- A move of the iterator, if there is one.
  unfoldable pub move : Ptr → (ℕ → M S (Unit {0})) → M S (Unit {0})
  move p step = do live ← live_iterator p; elim live [ none ↦ pure tt | some i ↦ step i ]

  unfoldable pub rocksdb_iterator_seek_to_first : Ptr → M S (Unit {0})
  unfolding move
  rocksdb_iterator_seek_to_first p = move p λ i. effect S (S.seek_to_first i)

  unfoldable pub rocksdb_iterator_seek_to_last : Ptr → M S (Unit {0})
  unfolding move
  rocksdb_iterator_seek_to_last p = move p λ i. effect S (S.seek_to_last i)

  unfoldable pub rocksdb_iterator_seek : Ptr → Bytes → M S (Unit {0})
  unfolding move
  rocksdb_iterator_seek p key = move p λ i. effect S (S.seek i key)

  unfoldable pub rocksdb_iterator_seek_for_prev : Ptr → Bytes → M S (Unit {0})
  unfolding move
  rocksdb_iterator_seek_for_prev p key = move p λ i. effect S (S.seek_for_prev i key)

  -- The library's `Next` and `Prev` require a valid iterator.
  unfoldable pub rocksdb_iterator_next : Ptr → M S (Unit {0})
  unfolding move
  rocksdb_iterator_next p = move p λ i. requires S (S.valid i) >> effect S (S.next i)

  unfoldable pub rocksdb_iterator_prev : Ptr → M S (Unit {0})
  unfolding move
  rocksdb_iterator_prev p = move p λ i. requires S (S.valid i) >> effect S (S.prev i)

  unfoldable pub rocksdb_iterator_key : Ptr → M S (Option Bytes)
  rocksdb_iterator_key p = do
    live ← live_iterator p
    elim live [
      | none ↦ pure none
      | some i ↦ do v ← ask S (S.valid i); if v then ask S (λ s. some (S.key i s)) else pure none
    ]

  unfoldable pub rocksdb_iterator_value : Ptr → M S (Option Bytes)
  rocksdb_iterator_value p = do
    live ← live_iterator p
    elim live [
      | none ↦ pure none
      | some i ↦ do v ← ask S (S.valid i); if v then ask S (λ s. some (S.value i s)) else pure none
    ]

  unfoldable pub rocksdb_iterator_status : Ptr → M S CStatus
  rocksdb_iterator_status p = do
    live ← live_iterator p
    elim live [
      | none ↦ null_argument "Iterator is null"
      | some i ↦ do s ← ask S (S.iterator_status i); make_status s
    ]
