-- ===== src/Client/Iterator/Cursors.antt =====
-- `RocksDBIterator.Iterator` of RocksDBIterator.swift: the `for` loop over an iterator.
use rock_db_swift.Prelude.{ℕ, ◌≡◌, true, Option, none, some, List, [], ◌∷◌}
use rock_db_swift.System.{System}
use rock_db_swift.Memory.{Ptr, iterator, World, ok, fault, precondition}
use rock_db_swift.Memory.Effects.{At}
use rock_db_swift.Bridge.Iterator.{rocksdb_iterator_key, rocksdb_iterator_value}
use rock_db_swift.Bridge.Iterator.Live.{valid-At, key-At, value-At, next-At, seek_to_first-At}
use rock_db_swift.Client.Iterator.{
  Entry, Cursor, make_cursor, cursor_next, key_value, next, seek_to_first,
}
use rock_db_swift.Client.Scan.Walk.{IsIterator, object}

abbrev pub running : Ptr → Cursor
running p = record { rocks_iterator = object p; started = true }

-- The entry that the loop sees first.
abbrev pub first : List Entry → Option Entry
first [] = none
first ((k, x) ∷ es) = some (k, x)

module _ {S : System} {i : ℕ} (I : IsIterator S i) {p : Ptr} {w : World S} where
  key_value-first :
      (entries : List Entry)
      → At w p (iterator (some i))
      → I.rest w.engine ≡ entries
      → key_value (object p) w ≡ ok (first entries) w
  unfolding key_value
  key_value-first [] at e = rw (valid-At at, I.ends w.engine e)
  key_value-first ((k, x) ∷ es) at e =
      let (v, hk, hx, n) = I.holds w.engine k x es e in
      let found_key : rocksdb_iterator_key p w ≡ ok (some k) w = rw (key-At at, v, hk) in
      let found_value : rocksdb_iterator_value p w ≡ ok (some x) w = rw (value-At at, v, hx) in
      rw (valid-At at, v) (rw found_key (rw found_value))

module _ {S : System} {i : ℕ} (I : IsIterator S i) {p : Ptr} {w : World S} where
  -- Over a library iterator that behaves as documented, the first `next` of a `for` loop seeks to
  -- the first entry and gives it, or nil if there is none.
  pub cursor_next-start :
      (entries : List Entry)
      → At w p (iterator (some i))
      → I.rest (S.seek_to_first i w.engine) ≡ entries
      → cursor_next (make_cursor (object p)) w
        ≡ ok (first entries, running p) (record w { engine = S.seek_to_first i w.engine })
  unfolding cursor_next seek_to_first
  cursor_next-start entries at e = rw (seek_to_first-At at) (
      rw (
        key_value-first I {w = record w { engine = S.seek_to_first i w.engine }} entries
          (record { ne_null = at.ne_null; holds = at.holds }) e))

  -- Over a library iterator that behaves as documented, `next` of a `for` loop that has started
  -- moves to the entry after the current one and gives it, or nil if there is none; called once
  -- more at the end, it makes a call that the library forbids.
  pub cursor_next-running :
      (entries : List Entry)
      → At w p (iterator (some i))
      → I.rest w.engine ≡ entries
      → cursor_next (running p) w ≡ elim entries [
        | [] ↦ fault precondition
        | _ ∷ es ↦ ok (first es, running p) (record w { engine = S.next i w.engine })
      ]
  unfolding cursor_next next
  cursor_next-running [] at e = rw (next-At at, I.ends w.engine e)
  cursor_next-running ((k, x) ∷ es) at e =
      let (v, hk, hx, after) = I.holds w.engine k x es e in
      rw (next-At at, v)
        (rw (
          key_value-first I {w = record w { engine = S.next i w.engine }} es
            (record { ne_null = at.ne_null; holds = at.holds }) after))
