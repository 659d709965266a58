-- ===== src/Client/Scan/Walk.antt =====
-- The loop of `forEach` and `forEachWithPrefix`, over a library iterator that behaves as documented.
use rock_db_swift.Prelude.{
  ℕ, zero, suc, ◌<◌, ◌≡◌, refl, Bool, true, false, not, some, List, [], ◌∷◌, Bytes, arith,
  if◌then◌else◌, length, ◌∙◌, ap, fun_ext, Bool-cases, inl, inr,
}
use rock_db_swift.System.{System}
use rock_db_swift.Memory.{Ptr, iterator, World, Run, ok, fault, M, pure, and_then, ◌>>◌, effect}
use rock_db_swift.Memory.Effects.{At}
use rock_db_swift.Bridge.Iterator.Live.{valid-At, key-At, value-At, next-At, seek-At}
use rock_db_swift.Client.Error.{Throws, returned, threw}
use rock_db_swift.Client.Database.{resume, ◌>>?◌}
use rock_db_swift.Client.Iterator.{RocksDbIterator, Entry, is_valid, key, value, next, seek}
use rock_db_swift.Client.Scan.{scan_loop, matches}
use rock_db_swift.Client.Scan.Order.{is_prefix, matches-is_prefix}
use rock_db_swift.Client.Scan.Prefix.{
  take_while, select, from_key, IsSorted, take_while-from_key, length-from_key,
}

-- The documented behaviour of a library iterator: it stands before the rest of its entries.
pub record IsIterator (S : System) (i : ℕ) : Type 0 where
  pub rest : S.State → List Entry
  pub ends : (s : S.State) → rest s ≡ [] → S.valid i s ≡ false
  pub holds :
      (s : S.State) (k x : Bytes) (es : List Entry)
      → rest s ≡ (k, x) ∷ es
      → (S.valid i s ≡ true) × (S.key i s ≡ k) × (S.value i s ≡ x) × (rest (S.next i s) ≡ es)

module _ {S : System} {i : ℕ} (I : IsIterator S i) (p : Ptr) where
  -- The world has the iterator behind the pointer, before these entries.
  pub record Stands (es : List Entry) (w : World S) : Type 0 where
    pub at : At w p (iterator (some i))
    pub before : I.rest w.engine ≡ es

  -- After the run the iterator is where it was, unless there was a fault.
  abbrev pub StillStands : {A : Type 0} → List Entry → Run S A → Type 0
  StillStands es (ok a w) = Stands es w
  StillStands es (fault f) = Unit {0}

  -- The closure leaves the iterator alone.
  abbrev pub Spares : (Bytes → Bytes → M S (Throws Bool)) → Type 0
  Spares body =
      (es : List Entry) (k x : Bytes) (w : World S) → Stands es w → StillStands es (body k x w)

-- The reference: the closure is called on each entry in order, until it throws or returns false; the
-- iterator moves on after each entry that it accepts.
unfoldable pub walk :
    {S : System} → ℕ → (Bytes → Bytes → M S (Throws Bool)) → List Entry → M S (Throws (Unit {0}))
walk i body [] = pure (returned tt)
walk {S} i body ((k, x) ∷ es) =
    let rest = walk i body es in
    body k x >>? λ go. if not go then pure (returned tt) else effect S (S.next i) >> rest

abbrev pub object : Ptr → RocksDbIterator
object p = record { handle = some p }

module _ {S : System} {i : ℕ} (I : IsIterator S i) (p : Ptr) where
  module _ {w : World S} where
    is_valid-nil : Stands I p [] w → is_valid (object p) w ≡ ok false w
    unfolding is_valid
    is_valid-nil st = rw (valid-At st.at, I.ends w.engine st.before)

    scan-cons :
        {k x : Bytes} {es : List Entry}
        → Stands I p ((k, x) ∷ es) w
        → (is_valid (object p) w ≡ ok true w)
          × (key (object p) w ≡ ok (some k) w)
          × (value (object p) w ≡ ok (some x) w)
          × (next (object p) w ≡ ok tt (record w { engine = S.next i w.engine }))
    unfolding is_valid key value next
    scan-cons {k} {x} {es} st =
        let (v, hk, hx, n) = I.holds w.engine k x es st.before in
        (
          rw (valid-At st.at, v),
          rw (key-At st.at, v, hk),
          rw (value-At st.at, v, hx),
          rw (next-At st.at, v),
        )

  -- What a run is continued with may change where it agrees on the worlds that the run can end in.
  resume-agrees :
      (entries : List Entry) (r : Run S (Throws Bool)) (f g : Bool → M S (Throws (Unit {0})))
      → StillStands I p entries r
      → ((go : Bool) (w : World S) → Stands I p entries w → f go w ≡ g go w)
      → and_then r (resume f) ≡ and_then r (resume g)
  resume-agrees entries (ok (returned go) w) f g st h = h go w st
  resume-agrees entries (ok (threw e) w) f g st h = refl
  resume-agrees entries (fault e) f g st h = refl

  next-agrees :
      (k x : Bytes) (entries : List Entry) (again rest : M S (Throws (Unit {0})))
      → ((w : World S) → Stands I p entries w → again w ≡ rest w)
      → (go : Bool) (w : World S) → Stands I p ((k, x) ∷ entries) w
      → (if not go then pure (returned tt) else next (object p) >> again) w
        ≡ (if not go then pure (returned tt) else effect S (S.next i) >> rest) w
  next-agrees k x entries again rest agree false w st = refl
  next-agrees k x entries again rest agree true w st =
      let (v, hk, hx, n) = scan-cons st in
      let (b, c, d, after) = I.holds w.engine k x entries st.before in
      rw n (
        agree (record w { engine = S.next i w.engine })
          (record { at = record { ne_null = st.at.ne_null; holds = st.at.holds }; before = after }))

  module _ (body : Bytes → Bytes → M S (Throws Bool)) (spares : Spares I p body) where
    -- Over a library iterator that behaves as documented, with more fuel than there are entries
    -- before it and a closure that leaves the iterator alone, the loop of `forEach` and
    -- `forEachWithPrefix` calls the closure on the leading entries whose key passes the guard, in
    -- order, until it throws or returns false; it does not run out of fuel.
    pub scan_loop-walk :
        (keep : Bytes → Bool) (fuel : ℕ) (entries : List Entry) (w : World S)
        → Stands I p entries w
        → length entries < fuel
        → scan_loop fuel keep body (object p) w ≡ walk i body (take_while keep entries) w
    unfolding scan_loop walk
    scan_loop-walk keep zero entries w st h = absurd (omega (arith, h))
    scan_loop-walk keep (suc fuel) [] w st h = rw (is_valid-nil st)
    scan_loop-walk keep (suc fuel) ((k, x) ∷ es) w st h =
        let (v, hk, hx, n) = scan-cons st in
        elim (Bool-cases (keep k)) [
          | inr stops ↦ rw (v, hk, hx, stops)
          | inl goes ↦
              rw (v, hk, hx, goes)
                (resume-agrees ((k, x) ∷ es) (body k x w) _ _ (spares ((k, x) ∷ es) k x w st) (
                  next-agrees k x es _ _
                    (λ w t. scan_loop-walk keep fuel es w t (omega (arith, h)))))
        ]

    -- Over a library iterator that behaves as documented and entries sorted by key, with more fuel
    -- than there are entries and a closure that leaves the iterator alone, the seek and the loop
    -- of `forEachWithPrefix` call the closure on exactly the entries whose key has the prefix, in
    -- order, until it throws or returns false.
    pub seek-select :
        (fuel : ℕ) (prefix : Bytes) (entries : List Entry) (w : World S)
        → At w p (iterator (some i))
        → IsSorted entries
        → I.rest (S.seek i prefix w.engine) ≡ from_key prefix entries
        → length entries < fuel
        → (seek (object p) prefix >> scan_loop fuel (matches prefix) body (object p)) w
          ≡ (effect S (S.seek i prefix) >> walk i body (select (is_prefix prefix) entries)) w
    unfolding seek
    seek-select fuel prefix entries w at sorted sought h =
        rw (seek-At at prefix, fun_ext (matches-is_prefix prefix))
          (scan_loop-walk (is_prefix prefix) fuel (from_key prefix entries)
              (record w { engine = S.seek i prefix w.engine })
              (record { at = record { ne_null = at.ne_null; holds = at.holds }; before = sought })
              (omega (arith, length-from_key prefix entries, h))
            ∙ ap (λ es. walk i body es (record w { engine = S.seek i prefix w.engine }))
                (take_while-from_key prefix entries sorted))
