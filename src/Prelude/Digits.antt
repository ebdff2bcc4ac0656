-- ===== src/Prelude/Digits.antt =====
-- The decimal conversions of the C library on texts of digits.
use Prim.Native.Nat.{ℕ, ◌+◌, ◌-◌, ◌*◌}
use mathlib.Core.Path.{◌≡◌, refl}
use mathlib.Core.Bool.{true, false}
use mathlib.Core.List.{[], ◌∷◌}
use native.Mathlib.Omega.{arith}
use wemo_matter_bridge.Prelude.Tests.{◌==◌}
use wemo_matter_bridge.Prelude.Lists.{All}
use wemo_matter_bridge.Prelude.Int.{pos}
use wemo_matter_bridge.Prelude.Strings.{Text}
use wemo_matter_bridge.Prelude.Decimal.{
  is_space, is_digit, read_digits, strtol, strtol_signed, strtol_unsigned, clamp_at, long_max,
}

-- The number that the digits after `acc` stand for.
abbrev pub decimal : ℕ → Text → ℕ
decimal acc [] = acc
decimal acc (b ∷ t) = decimal (acc * 10 + (b - b'0')) t

abbrev pub IsDigit : ℕ → Type 0
IsDigit b = is_digit b ≡ true

pub read_digits-decimal :
    (acc : ℕ) (t : Text) → All IsDigit t → read_digits acc t ≡ (decimal acc t, [])
unfolding read_digits
read_digits-decimal acc [] h = refl
read_digits-decimal acc (b ∷ t) h =
    rw (h.0, read_digits) (read_digits-decimal (acc * 10 + (b - b'0')) t h.1)

digit-not-space : (b : ℕ) → IsDigit b → is_space b ≡ false
digit-not-space b h = ground arith

digit-not-minus : (b : ℕ) → IsDigit b → (b == b'-') ≡ false
digit-not-minus b h = ground arith

digit-not-plus : (b : ℕ) → IsDigit b → (b == b'+') ≡ false
digit-not-plus b h = ground arith

pub strtol-decimal :
    (b : ℕ) (t : Text)
    → IsDigit b
    → All IsDigit t
    → strtol (b ∷ t) ≡ (pos (clamp_at long_max (decimal 0 (b ∷ t))), [])
unfolding strtol strtol_signed strtol_unsigned
strtol-decimal b t h k = rw (digit-not-space b h) (
    rw (digit-not-minus b h, digit-not-plus b h, strtol_signed)
      (rw (read_digits-decimal 0 (b ∷ t) (h, k), h, strtol_unsigned) refl))
