-- ===== src/Memory/Creations.antt =====
-- Commands that leave one new cell behind: a handle that is passed to the caller.
use rock_db_swift.Prelude.{◌+◌, ◌≤◌, ◌<◌, ◌≡◌, refl, fun_ext, Option, some, none, arith}
use rock_db_swift.System.{System}
use rock_db_swift.Memory.{
  Ptr, Cell, World, Run, ok, M, pure, and_then, ◌>>◌, update, free, with_handle,
}
use rock_db_swift.Memory.Effects.{Effect, IsSound, At, with_cell, free-owned}

-- The command returned `a` at a new address, with `c` there, the library in state `s`, and the heap
-- that `w` had elsewhere.
pub record Created {S : System} {A : Type 0} (w : World S) (a : Ptr → A) (c : Cell S) (s : S.State)
    (r : Run S A) : Type 0 where
  pub ptr : Ptr
  pub fresh : w.next ≤ ptr
  pub after : Ptr
  pub room : ptr < after
  pub runs : r ≡ ok (a ptr) (record { heap = update w.heap ptr (some c); next = after; engine = s })

module _ {S : System} {w : World S} (sound : IsSound w) where
  update-release :
      (c d : Cell S) (p : Ptr)
      → w.next + 1 ≤ p
      → update (update (with_cell w c).heap p (some d)) w.next none ≡ update w.heap p (some d)
  update-release c d p h = fun_ext λ a. ground (arith, sound.fresh a)

  update-keep :
      (c d : Cell S) (p : Ptr)
      → w.next + 1 ≤ p
      → update (with_cell w c).heap p (some d) w.next ≡ some c
  update-keep c d p h = ground arith

  pub Created-scope :
      {A : Type 0} (c : Cell S) (a : Ptr → A) (d : Cell S) (s : S.State) (r : Run S A)
      → Created (with_cell w c) a d s r
      → Created w a d s (and_then r λ x. free w.next >> pure x)
  Created-scope c a d s r e = record {
    ptr = e.ptr;
    fresh = omega (arith, e.fresh);
    after = e.after;
    room = e.room;
    runs =
        let held : World S = record {
          heap = update (with_cell w c).heap e.ptr (some d);
          next = e.after;
          engine = s;
        } in
        rw
          (
            e.runs,
            free-owned w.next c held (omega (arith, sound.positive))
                (update-keep c d e.ptr e.fresh),
          )
          (rw (update-release c d e.ptr e.fresh));
  }

module _ {S : System} {A : Type 0} where
  -- A command between the creation of one handle and its `free` that leaves another.
  pub Created-with_handle :
      {w : World S} (create : M S Ptr) (destroy : Ptr → M S (Unit {0})) (body : Ptr → M S A)
      (c : Cell S) (a : Ptr → A) (d : Cell S) (s : S.State)
      → IsSound w
      → create w ≡ ok w.next (with_cell w c)
      → ((p : Ptr) → destroy p ≡ free p)
      → Created (with_cell w c) a d s (body w.next (with_cell w c))
      → Created w a d s (with_handle create destroy body w)
  Created-with_handle {w} create destroy body c a d s sound creates frees e =
      rw creates (rw (frees w.next) (Created-scope sound c a d s _ e))

  -- The last step of such a command: the new cell is the last one allocated.
  pub Created-last :
      (w : World S) (a : Ptr → A) (c : Cell S) (s : S.State)
      → Created w a c s (ok (a w.next) (record (with_cell w c) { engine = s }))
  Created-last w a c s = record {
    ptr = w.next;
    fresh = omega arith;
    after = w.next + 1;
    room = omega arith;
    runs = refl;
  }

-- The heap without a cell.
abbrev pub without : {S : System} → World S → Ptr → World S
without w p = record w { heap = update w.heap p none }

-- The world after a cell has been left behind, and its removal.
module _ {S : System} {w : World S} (sound : IsSound w) (q n : Ptr) (c : Cell S) (s : S.State)
    (fresh : w.next ≤ q) (room : q < n) where
  abbrev pub added : World S
  added = record { heap = update w.heap q (some c); next = n; engine = s }

  pub added-IsSound : IsSound added
  added-IsSound = record {
    positive = omega (arith, room);
    fresh = λ a h. ground (arith, sound.fresh a (omega (arith, fresh, room, h)), room, h);
  }

  pub added-At : At added q c
  added-At = record { ne_null = λ e. omega (arith, e, sound.positive, fresh); holds = ground arith }

  heap_restored : update (update w.heap q (some c)) q none ≡ w.heap
  heap_restored = fun_ext λ a. ground (arith, sound.fresh a, fresh)

  pub Effect-removed :
      {A : Type 0} {a : A} {t : S.State} {r : Run S A}
      → Effect (without added q) a t r
      → Effect w a t r
  Effect-removed e = record {
    after = e.after;
    grows = omega (arith, e.grows, fresh, room);
    runs = rw e.runs (rw heap_restored);
  }

-- What holds after a cell has been released that stood on top of a heap.
pub restored :
    {S : System} (base : Ptr → Option (Cell S)) (p : Ptr) (c : Cell S) (h : Ptr → Option (Cell S))
    → base p ≡ none
    → h ≡ update base p (some c)
    → update h p none ≡ base
restored base p c h free e = rw e (fun_ext λ a. ground (arith, free))

pub IsSound-removed :
    {S : System} (w : World S) (p : Ptr) (s : S.State)
    → IsSound w
    → IsSound (record w { heap = update w.heap p none; engine = s })
IsSound-removed w p s sound = record {
  positive = sound.positive;
  fresh = λ a h. ground (arith, sound.fresh a h);
}
