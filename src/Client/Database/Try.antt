-- ===== src/Client/Database/Try.antt =====
-- Effects of commands joined by `try`, and of pointers read as optionals.
use rock_db_swift.Prelude.{◌≡◌, ◌≤◌, some, arith}
use rock_db_swift.System.{System}
use rock_db_swift.Memory.{Ptr, Cell, World, Run, M, and_then}
use rock_db_swift.Memory.Effects.{Effect, Effect-bind, Effect-pure, At}
use rock_db_swift.Client.Error.{RocksDbError, Throws, returned, threw}
use rock_db_swift.Client.Database.{optional, resume}

module _ {S : System} {A B : Type 0} {w : World S} {s : S.State} {r : Run S (Throws A)}
    (k : A → M S (Throws B)) where
  pub Effect-threw :
      {e : RocksDbError} → Effect w (threw e) s r → Effect w (threw e) s (and_then r (resume k))
  Effect-threw h = Effect-bind (resume k) h (λ n le. Effect-pure _ _)

  pub Effect-returned :
      {a : A} {b : Throws B} {t : S.State}
      → Effect w (returned a) s r
      → ((n : Ptr)
          → w.next ≤ n
          → let v : World S = record w { next = n; engine = s } in Effect v b t (k a v))
      → Effect w b t (and_then r (resume k))
  Effect-returned h f = Effect-bind (resume k) h f

pub optional-At : {S : System} {w : World S} {p : Ptr} {c : Cell S} → At w p c → optional p ≡ some p
unfolding optional
optional-At at = ground (arith, at.ne_null)
