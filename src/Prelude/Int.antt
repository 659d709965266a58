-- ===== src/Prelude/Int.antt =====
-- Swift's `Int`, and its conversions to `Int32` and to C's `size_t`.
use Prim.Native.Nat.{ℕ, suc, ◌-◌, ◌%◌, ◌^◌}
use mathlib.Core.Path.{◌≡◌, refl}
use mathlib.Core.Bool.{Bool, true, false}
use rock_db_swift.Prelude.Tests.{ltb, ◌==◌, if◌then◌else◌}

-- `negsuc n` is -(n + 1).
pub data ℤ : Type 0 where
  pos : ℕ → ℤ
  negsuc : ℕ → ℤ

-- The value fits the signed 32-bit range.
abbrev pub fits_int32 : ℤ → Bool
fits_int32 (pos n) = ltb n (2 ^ 31)
fits_int32 (negsuc n) = ltb n (2 ^ 31)

-- The bit pattern of a 64-bit `Int`, read as `size_t`.
abbrev pub to_size : ℤ → ℕ
to_size (pos n) = n
to_size (negsuc n) = 2 ^ 64 - suc n

-- A C `int` cast to an enumeration over `unsigned char`.
abbrev pub to_byte : ℤ → ℕ
to_byte (pos n) = n % 256
to_byte (negsuc n) = 255 - n % 256

-- A C flag, and Swift's `flag ? 1 : 0`.
abbrev pub to_bool : ℕ → Bool
to_bool n = if n == 0 then false else true

abbrev pub to_int : Bool → ℕ
to_int b = if b then 1 else 0

pub to_bool-to_int : (b : Bool) → to_bool (to_int b) ≡ b
to_bool-to_int true = refl
to_bool-to_int false = refl
