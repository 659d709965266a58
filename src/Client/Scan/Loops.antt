-- ===== src/Client/Scan/Loops.antt =====
-- `forEach` and `forEachWithPrefix` of RocksDB.swift from the call to the return, with a closure that
-- only acts on the library's state.
use rock_db_swift.Prelude.{
  ℕ, ◌<◌, ◌≡◌, refl, ap, fun_ext, ◌∙◌, Bool, true, some, List, [], ◌∷◌, Bytes, arith, length,
}
use rock_db_swift.System.{System}
use rock_db_swift.Memory.{Ptr, iterator, World, ok}
use rock_db_swift.Memory.Effects.{IsSound, IsSound-later, Effect, At, At-later}
use rock_db_swift.Memory.Creations.{without, added, added-IsSound, added-At, Effect-removed}
use rock_db_swift.Bridge.Database.Live.{Live}
use rock_db_swift.Bridge.Iterator.Live.{seek_to_first-At, seek-At}
use rock_db_swift.Client.Error.{Throws}
use rock_db_swift.Client.AccessOptions.{default_read_options}
use rock_db_swift.Client.AccessOptions.Handles.{library_read_options}
use rock_db_swift.Client.Database.{RocksDb}
use rock_db_swift.Client.Iterator.{Entry, seek_to_first, seek}
use rock_db_swift.Client.Iterator.Making.{Created-make_iterator}
use rock_db_swift.Client.Scan.{scan_loop, scan, for_each, for_each_with_prefix, matches}
use rock_db_swift.Client.Scan.Prefix.{
  take_while, select, from_key, IsSorted, take_while-from_key, length-from_key,
}
use rock_db_swift.Client.Scan.Order.{is_prefix, matches-is_prefix}
use rock_db_swift.Client.Scan.Visits.{visit, concluded, body_of, walk-visit, finish_scan}
use rock_db_swift.Client.Scan.Walk.{IsIterator, Spares, walk, object, scan_loop-walk}

module _ {S : System} {w : World S} (sound : IsSound w) {p : Ptr} {d : ℕ} (live : Live w p d)
    {i : ℕ} (I : IsIterator S i) (act : Bytes → Bytes → S.State → Throws Bool × S.State)
    (spares : (k x : Bytes) (s : S.State) → I.rest (act k x s).1 ≡ I.rest s) where
  body_of-Spares : (q : Ptr) → Spares I q (body_of act)
  body_of-Spares q es k x w st = record {
    at = record { ne_null = st.at.ne_null; holds = st.at.holds };
    before = spares k x w.engine ∙ st.before;
  }

  take_while-all : (es : List Entry) → take_while (λ _. true) es ≡ es
  take_while-all [] = refl
  take_while-all ((k, x) ∷ es) = ap (λ (l : List Entry). (k, x) ∷ l) (take_while-all es)

  -- The loop meets the leading entries whose key passes the guard.
  loop-visit :
      (q : Ptr) (fuel : ℕ) (keep : Bytes → Bool) (entries met : List Entry) (v : World S)
      → At v q (iterator (some i))
      → I.rest v.engine ≡ entries
      → take_while keep entries ≡ met
      → length entries < fuel
      → let done = visit S i act met v.engine in
        scan_loop fuel keep (body_of act) (object q) v ≡ ok done.0 (record v { engine = done.1 })
  loop-visit q fuel keep entries met v at e meets h =
      scan_loop-walk I q (body_of act) (body_of-Spares q) keep fuel entries v
        (record { at = at; before = e }) h
      ∙ ap (λ es. walk i (body_of act) es v) meets
      ∙ walk-visit i act met v

  scan-visit :
      (q : Ptr) (fuel : ℕ) (keep : Bytes → Bool) (entries met : List Entry) (v : World S)
      → IsSound v
      → At v q (iterator (some i))
      → I.rest v.engine ≡ entries
      → take_while keep entries ≡ met
      → length entries < fuel
      → let done = visit S i act met v.engine in
        Effect
          (without v q)
          (concluded S i done.0 done.1)
          (S.delete_iterator i done.1)
          (scan fuel keep (body_of act) (object q) v)
  unfolding scan
  scan-visit q fuel keep entries met v good at e meets h =
      let done = visit S i act met v.engine in
      let ended : World S = record v { engine = done.1 } in
      let f =
        finish_scan {w = ended} (IsSound-later good v.next done.1 (omega arith))
          (At-later at v.next done.1) done.0 in
      rw (loop-visit q fuel keep entries met v at e meets h)
        (record { after = f.after; grows = f.grows; runs = f.runs })

  -- On an open database, over a library iterator that behaves as documented, with more fuel than
  -- there are entries and a closure that acts on the library's state only and leaves the iterator
  -- where it is, `forEach` calls the closure on the entries in order until it throws or returns
  -- false, throws the closure's error or else reports the iterator's status, and deletes the
  -- iterator; the heap is left as it was.
  pub Effect-for_each :
      (r : RocksDb) (fuel : ℕ) (entries : List Entry) (s : S.State)
      → r.handle ≡ some p
      → S.new_iterator d (library_read_options S default_read_options) w.engine ≡ (some i, s)
      → I.rest (S.seek_to_first i s) ≡ entries
      → length entries < fuel
      → let done = visit S i act entries (S.seek_to_first i s) in
        Effect w
          (concluded S i done.0 done.1)
          (S.delete_iterator i done.1)
          (for_each fuel r (body_of act) w)
  unfolding for_each seek_to_first
  Effect-for_each r fuel entries s e opens sought h =
      let made = Created-make_iterator sound live r default_read_options e in
      let begun : World S =
        added sound made.ptr made.after (iterator (some i)) (S.seek_to_first i s) made.fresh
          made.room in
      rw (made.runs, opens)
        (rw
          (seek_to_first-At
            (added-At sound made.ptr made.after (iterator (some i)) s made.fresh made.room))
          (Effect-removed sound made.ptr made.after (iterator (some i)) (S.seek_to_first i s)
            made.fresh made.room
            (scan-visit made.ptr fuel (λ _. true) entries entries begun
              (added-IsSound sound made.ptr made.after (iterator (some i)) (S.seek_to_first i s)
                made.fresh made.room)
              (added-At sound made.ptr made.after (iterator (some i)) (S.seek_to_first i s)
                made.fresh made.room)
              sought (take_while-all entries) h)))

  met_prefix :
      (prefix : Bytes) (entries : List Entry)
      → IsSorted entries
      → take_while (matches prefix) (from_key prefix entries) ≡ select (is_prefix prefix) entries
  met_prefix prefix entries sorted =
      rw (fun_ext (matches-is_prefix prefix)) (take_while-from_key prefix entries sorted)

  -- On an open database, over a library iterator that behaves as documented and entries sorted by
  -- key, with more fuel than there are entries and a closure that acts on the library's state only
  -- and leaves the iterator where it is, `forEachWithPrefix` calls the closure on exactly the
  -- entries whose key has the prefix, in order, until it throws or returns false, throws the
  -- closure's error or else reports the iterator's status, and deletes the iterator; the heap is
  -- left as it was.
  pub Effect-for_each_with_prefix :
      (r : RocksDb) (fuel : ℕ) (prefix : Bytes) (entries : List Entry) (s : S.State)
      → r.handle ≡ some p
      → S.new_iterator d (library_read_options S default_read_options) w.engine ≡ (some i, s)
      → IsSorted entries
      → I.rest (S.seek i prefix s) ≡ from_key prefix entries
      → length entries < fuel
      → let done = visit S i act (select (is_prefix prefix) entries) (S.seek i prefix s) in
        Effect w
          (concluded S i done.0 done.1)
          (S.delete_iterator i done.1)
          (for_each_with_prefix fuel r prefix (body_of act) w)
  unfolding for_each_with_prefix seek
  Effect-for_each_with_prefix r fuel prefix entries s e opens sorted sought h =
      let made = Created-make_iterator sound live r default_read_options e in
      let begun : World S =
        added sound made.ptr made.after (iterator (some i)) (S.seek i prefix s) made.fresh
          made.room in
      rw (made.runs, opens)
        (rw
          (seek-At (added-At sound made.ptr made.after (iterator (some i)) s made.fresh made.room)
            prefix)
          (Effect-removed sound made.ptr made.after (iterator (some i)) (S.seek i prefix s)
            made.fresh made.room
            (scan-visit made.ptr fuel (matches prefix) (from_key prefix entries)
              (select (is_prefix prefix) entries) begun
              (added-IsSound sound made.ptr made.after (iterator (some i)) (S.seek i prefix s)
                made.fresh made.room)
              (added-At sound made.ptr made.after (iterator (some i)) (S.seek i prefix s) made.fresh
                made.room)
              sought (met_prefix prefix entries sorted)
              (omega (arith, length-from_key prefix entries, h)))))
