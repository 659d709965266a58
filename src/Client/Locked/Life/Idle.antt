-- ===== src/Client/Locked/Life/Idle.antt =====
-- Databases without iterators, and the calls of RocksDB.swift that make none.
use rock_db_swift.Prelude.{ℕ, ◌≡◌, sym, ap, ◌∙◌, Bool, false, Option, some, Bytes, arith}
use rock_db_swift.System.{System, ReadOptions, WriteOptions, CompactRangeOptions, FlushOptions}
use rock_db_swift.Memory.{Ptr, db, World, Run, ok}
use rock_db_swift.Memory.Effects.{Effect, At, same_world}
use rock_db_swift.Client.Database.{RocksDb}
use rock_db_swift.Client.Database.Closing.{open_handle}
use rock_db_swift.Client.Lifecycle.Quiet.{Quiet}

-- Only `NewIterator` makes iterators: a database that has none has none after these calls of the
-- library, on whatever database.
pub record MakesNoIterators (S : System) : Type 0 where
  pub put :
      (j d : ℕ) (o : WriteOptions) (k x : Bytes) (s : S.State)
      → S.has_iterators j s ≡ false
      → S.has_iterators j (S.put d o k x s).1 ≡ false
  pub get :
      (j d : ℕ) (o : ReadOptions) (k : Bytes) (s : S.State)
      → S.has_iterators j s ≡ false
      → S.has_iterators j (S.get d o k s).1 ≡ false
  pub delete :
      (j d : ℕ) (o : WriteOptions) (k : Bytes) (s : S.State)
      → S.has_iterators j s ≡ false
      → S.has_iterators j (S.delete d o k s).1 ≡ false
  pub key_may_exist :
      (j d : ℕ) (o : ReadOptions) (k : Bytes) (s : S.State)
      → S.has_iterators j s ≡ false
      → S.has_iterators j (S.key_may_exist d o k s).1 ≡ false
  pub flush :
      (j d : ℕ) (o : FlushOptions) (s : S.State)
      → S.has_iterators j s ≡ false
      → S.has_iterators j (S.flush d o s).1 ≡ false
  pub compact_range :
      (j d : ℕ) (o : CompactRangeOptions) (start_key end_key : Option Bytes) (s : S.State)
      → S.has_iterators j s ≡ false
      → S.has_iterators j (S.compact_range d o start_key end_key s).1 ≡ false

-- The database that the object has open, if any, has no iterators.
abbrev pub Idle : {S : System} → RocksDb → World S → Type 0
Idle {S} r w =
    (p : Ptr) (transactional : Bool) (d : ℕ) (base : Option ℕ)
    → r.handle ≡ some p
    → At w p (db (open_handle transactional d base))
    → S.has_iterators d w.engine ≡ false

module _ {S : System} where
  -- The run leaves a database without iterators so.
  abbrev pub Spares : World S → World S → ℕ → Type 0
  Spares w v j = S.has_iterators j w.engine ≡ false → S.has_iterators j v.engine ≡ false

  pub spared :
      {A : Type 0} {a b : A} {u v : World S} {run : Run S A} (w : World S) (j : ℕ)
      → run ≡ ok b u
      → run ≡ ok a v
      → Spares w u j
      → Spares w v j
  spared w j x y h idle =
      ap (λ t. S.has_iterators j t.engine) (sym (same_world (sym x ∙ y))) ∙ h idle

  pub Effect-run :
      {A : Type 0} {a : A} {w : World S} {run : Run S A} → run ≡ ok a w → Effect w a w.engine run
  Effect-run {w} e = record { after = w.next; grows = omega arith; runs = e }

  -- What leaves the heap alone and makes no iterators leaves an object's database idle.
  pub Idle-Quiet :
      {A : Type 0} {a : A} {w v : World S} {run : Run S A} (r : RocksDb)
      → Idle r w
      → Quiet w run
      → run ≡ ok a v
      → ((j : ℕ) → Spares w v j)
      → Idle r v
  Idle-Quiet r idle q e spares p transactional d base stands at =
      let same = ap (λ u. u.heap p) (same_world (sym q.effect.runs ∙ e)) in
      spares d (
        idle p transactional d base stands
          (record { ne_null = at.ne_null; holds = same ∙ at.holds }))
