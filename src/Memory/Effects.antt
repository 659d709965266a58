-- ===== src/Memory/Effects.antt =====
-- Commands that return and leave the heap as it was.
use rock_db_swift.Prelude.{
  ◌+◌, ◌≤◌, ◌<◌, ◌≡◌, refl, ap, ◌≢◌, false, fun_ext, none, some, arith, ◌==◌,
}
use rock_db_swift.System.{System}
use rock_db_swift.Memory.{
  Ptr, null, Cell, World, Run, ok, fault, M, pure, and_then, ◌>>=◌, ◌>>◌, update, load, store, free,
  with_handle,
}

-- No cell stands at or past `next`, and `next` is not the null pointer.
pub record IsSound {S : System} (w : World S) : Type 0 where
  pub positive : null < w.next
  pub fresh : (a : Ptr) → w.next ≤ a → w.heap a ≡ none

-- The command returned `a`, with the library in state `s` and the heap that `w` had: what it
-- allocated is freed, what was there is unchanged, and there was no fault.
pub record Effect {S : System} {A : Type 0} (w : World S) (a : A) (s : S.State) (r : Run S A)
    : Type 0 where
  pub after : Ptr
  pub grows : w.next ≤ after
  pub runs : r ≡ ok a (record w { next = after; engine = s })

-- The world after an allocation.
abbrev pub with_cell : {S : System} → World S → Cell S → World S
with_cell w c = record w { heap = update w.heap w.next (some c); next = w.next + 1 }

module _ {S : System} (p : Ptr) (c : Cell S) (w : World S) where
  pub load-owned : p ≢ null → w.heap p ≡ some c → load p w ≡ ok c w
  unfolding load
  load-owned h e = ground arith

  pub free-owned :
      p ≢ null → w.heap p ≡ some c → free p w ≡ ok tt (record w { heap = update w.heap p none })
  unfolding free load
  free-owned h e = ground arith

module _ {S : System} {w : World S} (sound : IsSound w) where
  pub IsSound-later :
      (n : Ptr) (s : S.State) → w.next ≤ n → IsSound (record w { next = n; engine = s })
  IsSound-later n s h = record {
    positive = omega (arith, sound.positive);
    fresh = λ a k. sound.fresh a (omega (arith, h, k));
  }

  pub IsSound-with_cell : (c : Cell S) → IsSound (with_cell w c)
  IsSound-with_cell c = record {
    positive = omega (arith, sound.positive);
    fresh = λ a k. ground (arith, sound.fresh a (omega (arith, k)));
  }

  -- What was allocated before is still there.
  pub with_cell-old : (c d : Cell S) (p : Ptr) → w.heap p ≡ some d → (with_cell w c).heap p ≡ some d
  with_cell-old c d p e = ground (arith, sound.fresh p)

  pub with_cell-new : (c : Cell S) → (with_cell w c).heap w.next ≡ some c
  with_cell-new c = ground arith

  pub load-fresh : (c : Cell S) → load w.next (with_cell w c) ≡ ok c (with_cell w c)
  load-fresh c = load-owned w.next c _ (omega (arith, sound.positive)) (with_cell-new c)

  pub store-fresh : (c d : Cell S) → store w.next d (with_cell w c) ≡ ok tt (with_cell w d)
  unfolding store
  store-fresh c d =
      ap (λ h. ok tt (record (with_cell w c) { heap = h })) (fun_ext λ a. ground arith)

  pub update-restore : (c : Cell S) → update (with_cell w c).heap w.next none ≡ w.heap
  update-restore c = fun_ext λ a. ground (arith, sound.fresh a)

  -- A command that only uses a fresh cell, and the cell's release, together leave the heap alone.
  pub Effect-scope :
      {A : Type 0} (c : Cell S) (a : A) (s : S.State) (r : Run S A)
      → Effect (with_cell w c) a s r
      → Effect w a s (and_then r λ x. free w.next >> pure x)
  Effect-scope c a s r e = record {
    after = e.after;
    grows = omega (arith, e.grows);
    runs =
        let held : World S = record (with_cell w c) { next = e.after; engine = s } in
        rw (e.runs, free-owned w.next c held (omega (arith, sound.positive)) (with_cell-new c))
          (rw (update-restore c));
  }

pub and_then_assoc :
    {S : System} {A B C : Type 0} (r : Run S A) (f : A → M S B) (g : B → M S C)
    → and_then (and_then r f) g ≡ and_then r (λ a. f a >>= g)
and_then_assoc (ok a w) f g = refl
and_then_assoc (fault f) g k = refl

pub Effect-pure : {S : System} {A : Type 0} (w : World S) (a : A) → Effect w a w.engine (ok a w)
Effect-pure w a = record { after = w.next; grows = omega arith; runs = refl }

module _ {S : System} {A : Type 0} where
  -- A command between the creation of a handle and its `free`.
  pub Effect-with_handle :
      {w : World S} (create : M S Ptr) (destroy : Ptr → M S (Unit {0})) (body : Ptr → M S A)
      (c : Cell S) (a : A) (s : S.State)
      → IsSound w
      → create w ≡ ok w.next (with_cell w c)
      → ((p : Ptr) → destroy p ≡ free p)
      → Effect (with_cell w c) a s (body w.next (with_cell w c))
      → Effect w a s (with_handle create destroy body w)
  Effect-with_handle {w} create destroy body c a s sound creates frees e =
      rw creates (rw (frees w.next) (Effect-scope sound c a s _ e))

  -- The world before a call of the library serves as well as the one after it.
  pub Effect-call :
      {w : World S} {a : A} {s t : S.State} {r : Run S A}
      → Effect (record w { engine = t }) a s r
      → Effect w a s r
  Effect-call e = record { after = e.after; grows = e.grows; runs = e.runs }

  -- So does the world before an allocation that has been undone.
  pub Effect-later :
      {w : World S} {a : A} {s t : S.State} {r : Run S A} (n : Ptr)
      → w.next ≤ n
      → Effect (record w { next = n; engine = t }) a s r
      → Effect w a s r
  Effect-later n h e = record { after = e.after; grows = omega (arith, h, e.grows); runs = e.runs }

module _ {S : System} {A B : Type 0} where
  pub Effect-bind :
      {w : World S} {a : A} {b : B} {s t : S.State} {r : Run S A} (k : A → M S B)
      → Effect w a s r
      → ((n : Ptr)
          → w.next ≤ n
          → Effect
              (record w { next = n; engine = s })
              b
              t
              (k a (record w { next = n; engine = s })))
      → Effect w b t (and_then r k)
  Effect-bind k e f =
      let e' = f e.after e.grows in
      record {
        after = e'.after;
        grows = omega (arith, e.grows, e'.grows);
        runs = rw e.runs e'.runs;
      }

-- A pointer to a cell.
pub record At {S : System} (w : World S) (p : Ptr) (c : Cell S) : Type 0 where
  pub ne_null : p ≢ null
  pub holds : w.heap p ≡ some c

module _ {S : System} {w : World S} (sound : IsSound w) where
  pub At-old : (c : Cell S) {p : Ptr} {d : Cell S} → At w p d → At (with_cell w c) p d
  At-old c {p} {d} at = record { ne_null = at.ne_null; holds = with_cell-old sound c d p at.holds }

  pub At-new : (c : Cell S) → At (with_cell w c) w.next c
  At-new c = record {
    ne_null = λ e. omega (arith, sound.positive, e);
    holds = with_cell-new sound c;
  }

module _ {S : System} {w : World S} {p : Ptr} where
  pub At-later :
      {c : Cell S} → At w p c → (n : Ptr) (s : S.State) → At (record w { next = n; engine = s }) p c
  At-later at n s = record { ne_null = at.ne_null; holds = at.holds }

  pub not_null : {c : Cell S} → At w p c → (p == null) ≡ false
  not_null at = ground (arith, at.ne_null)

  pub load-At : {c : Cell S} → At w p c → load p w ≡ ok c w
  load-At {c} at = load-owned p c w at.ne_null at.holds

module _ {S : System} {A : Type 0} where
  answer_or : A → Run S A → A
  answer_or a (ok b v) = b
  answer_or a (fault f) = a

  world_or : World S → Run S A → World S
  world_or w (ok b v) = v
  world_or w (fault f) = w

  -- A run has one outcome.
  pub same_answer : {a b : A} {w v : World S} → ok a w ≡ ok b v → a ≡ b
  unfolding answer_or
  same_answer {a} e = ap (answer_or a) e

  pub same_world : {a b : A} {w v : World S} → ok a w ≡ ok b v → w ≡ v
  unfolding world_or
  same_world {w = w} e = ap (world_or w) e
