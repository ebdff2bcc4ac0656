-- ===== src/Prelude/Int.antt =====
-- `int` values of the source as signed integers; no operation of the model leaves the `int` range.
use Prim.Native.Nat.{ℕ, ◌+◌, ◌-◌, ◌%◌}
use mathlib.Core.Path.{◌≡◌}
use mathlib.Core.Bool.{Bool, true, false}
use native.Mathlib.Omega.{arith}
use wemo_matter_bridge.Prelude.Tests.{◌==◌, ltb, leb, if◌then◌else◌}

-- `negsuc n` is -(n + 1).
pub data ℤ : Type 0 where
  pos : ℕ → ℤ
  negsuc : ℕ → ℤ

abbrev pub minus_one : ℤ
minus_one = negsuc 0

abbrev pub int_eq : ℤ → ℤ → Bool
int_eq (pos a) (pos b) = a == b
int_eq (negsuc a) (negsuc b) = a == b
int_eq _ _ = false

pub int_eq_refl : (a : ℤ) → int_eq a a ≡ true
int_eq_refl (pos a) = ground arith
int_eq_refl (negsuc a) = ground arith

pub int_eq_sound : (a b : ℤ) → int_eq a b ≡ true → a ≡ b
int_eq_sound a b h = ground arith

-- `static_cast<uint16_t>` of an `int`.
abbrev pub as_uint16 : ℤ → ℕ
as_uint16 (pos n) = n % 65536
as_uint16 (negsuc n) = 65535 - n % 65536

-- The sum of an `int` and a number that is not negative.
abbrev pub add_nat : ℤ → ℕ → ℤ
add_nat (pos a) n = pos (a + n)
add_nat (negsuc a) n = if leb n a then negsuc (a - n) else pos (n - a - 1)

-- `static_cast<int16_t>` of an `int`.
abbrev pub as_int16 : ℤ → ℤ
as_int16 v = let u = as_uint16 v in if ltb u 32768 then pos u else negsuc (65535 - u)
