-- ===== src/Client/Scan/Visits.antt =====
-- The loops and the end of `forEach` and `forEachWithPrefix` in RocksDB.swift, with a closure that
-- only acts on the library's state.
use rock_db_swift.Prelude.{
  ℕ, ◌≡◌, refl, Bool, true, false, not, none, some, List, [], ◌∷◌, Bytes, arith, if◌then◌else◌,
}
use rock_db_swift.System.{System}
use rock_db_swift.Memory.{Ptr, iterator, World, ok, M, pure, and_then, ◌>>◌, effect, load_iterator}
use rock_db_swift.Memory.Effects.{IsSound, Effect, At, At-later, load-At, not_null, free-owned}
use rock_db_swift.Memory.Creations.{without}
use rock_db_swift.Bridge.Iterator.{rocksdb_iterator_destroy}
use rock_db_swift.Bridge.Iterator.Live.{status-At}
use rock_db_swift.Client.Error.{Throws, returned, threw}
use rock_db_swift.Client.Error.Reports.{reported, check-make_status}
use rock_db_swift.Client.Database.{resume}
use rock_db_swift.Client.Iterator.{Entry, close, check_status}
use rock_db_swift.Client.Scan.Walk.{walk, object}

module _ (S : System) where
  -- What follows the closure's answer.
  abbrev pub proceed :
      (S.State → Throws (Unit {0}) × S.State) → Throws Bool → S.State → Throws (Unit {0}) × S.State
  proceed rest (threw e) s = (threw e, s)
  proceed rest (returned false) s = (returned tt, s)
  proceed rest (returned true) s = rest s

  -- The entries in order, until the closure throws or returns false.
  abbrev pub visit :
      ℕ
      → (Bytes → Bytes → S.State → Throws Bool × S.State)
      → List Entry
      → S.State
      → Throws (Unit {0}) × S.State
  visit i act [] s = (returned tt, s)
  visit i act ((k, x) ∷ es) s =
      let rest = visit i act es in proceed (λ s. rest (S.next i s)) (act k x s).0 (act k x s).1

  -- A loop that has ended well checks the iterator's status.
  abbrev pub concluded : ℕ → Throws (Unit {0}) → S.State → Throws (Unit {0})
  concluded i (threw e) s = threw e
  concluded i (returned _) s = reported S s (S.iterator_status i s)

module _ {S : System} where
  -- The closure's action, on a world.
  abbrev pub body_of :
      (Bytes → Bytes → S.State → Throws Bool × S.State) → Bytes → Bytes → M S (Throws Bool)
  body_of act k x w = ok (act k x w.engine).0 (record w { engine = (act k x w.engine).1 })

  proceed-lifts :
      (rest : S.State → Throws (Unit {0}) × S.State) (r : Throws Bool) (s : S.State) (w : World S)
      (again : M S (Throws (Unit {0})))
      → ((s : S.State)
          → again (record w { engine = s }) ≡ ok (rest s).0 (record w { engine = (rest s).1 }))
      → and_then
          (ok r (record w { engine = s }))
          (resume (λ go. if not go then pure (returned tt) else again))
        ≡ ok (proceed S rest r s).0 (record w { engine = (proceed S rest r s).1 })
  proceed-lifts rest (threw e) s w again h = refl
  proceed-lifts rest (returned false) s w again h = refl
  proceed-lifts rest (returned true) s w again h = h s

  pub walk-visit :
      (i : ℕ) (act : Bytes → Bytes → S.State → Throws Bool × S.State) (entries : List Entry)
      (w : World S)
      → walk i (body_of act) entries w
        ≡ ok
            (visit S i act entries w.engine).0
            (record w { engine = (visit S i act entries w.engine).1 })
  unfolding walk
  walk-visit i act [] w = refl
  walk-visit i act ((k, x) ∷ es) w =
      proceed-lifts (λ s. visit S i act es (S.next i s)) (act k x w.engine).0 (act k x w.engine).1 w
        (effect S (S.next i) >> walk i (body_of act) es)
        (λ s. walk-visit i act es (record w { engine = S.next i s }))

module _ {S : System} {w : World S} {q : Ptr} {i : ℕ} (at : At w q (iterator (some i))) where
  close-At :
      close (object q) w
      ≡ ok
          (record { handle = none })
          (record (without w q) { engine = S.delete_iterator i w.engine })
  unfolding close rocksdb_iterator_destroy load_iterator
  close-At =
      rw (not_null at, load-At at)
        (rw (
          free-owned q (iterator (some i)) (record w { engine = S.delete_iterator i w.engine })
            at.ne_null at.holds))

module _ {S : System} {w : World S} {q : Ptr} {i : ℕ} (sound : IsSound w)
    (at : At w q (iterator (some i))) where
  -- The end of a scan: the check of the status, and the deferred close.
  pub finish_scan :
      (r : Throws (Unit {0}))
      → Effect (without w q) (concluded S i r w.engine) (S.delete_iterator i w.engine) (
          and_then
            (resume (λ _. check_status (object q)) r w)
            λ result. close (object q) >> pure result)
  unfolding check_status
  finish_scan (threw e) = record { after = w.next; grows = omega arith; runs = rw (close-At at) }
  finish_scan (returned _) =
      let e = check-make_status w sound (S.iterator_status i w.engine) in
      record {
        after = e.after;
        grows = e.grows;
        runs = rw (status-At at, e.runs) (rw (close-At (At-later at e.after w.engine)));
      }
