-- ===== src/Prelude/Decimal.antt =====
-- What the source uses of the C library's decimal conversions, over the bytes of a string.
use Prim.Native.Nat.{ℕ, zero, suc, ◌+◌, ◌-◌, ◌*◌}
use mathlib.Core.Bool.{Bool, false, ◌&&◌, ◌||◌}
use mathlib.Core.List.{[], ◌∷◌}
use wemo_matter_bridge.Prelude.Tests.{◌==◌, ltb, leb, if◌then◌else◌}
use wemo_matter_bridge.Prelude.Int.{ℤ, pos, negsuc}
use wemo_matter_bridge.Prelude.Strings.{Text}

-- `isspace` in the C locale: tab to carriage return, and space.
abbrev pub is_space : ℕ → Bool
is_space b = (leb 9 b && leb b 13) || b == 32

abbrev pub is_digit : ℕ → Bool
is_digit b = leb b'0' b && leb b b'9'

abbrev pub skip_spaces : Text → Text
skip_spaces [] = []
skip_spaces (b ∷ t) = if is_space b then skip_spaces t else b ∷ t

-- The value of the leading digits after `acc`, and the text behind them.
unfoldable pub read_digits : ℕ → Text → ℕ × Text
read_digits acc [] = (acc, [])
read_digits acc (b ∷ t) =
    let more = read_digits (acc * 10 + (b - b'0')) t in if is_digit b then more else (acc, b ∷ t)

abbrev pub negate : ℕ → ℤ
negate zero = pos 0
negate (suc n) = negsuc n

abbrev pub starts_with_digit : Text → Bool
starts_with_digit [] = false
starts_with_digit (b ∷ t) = is_digit b

-- `strtol` in base 10 with a 64-bit `long`: the value, and what its end pointer points to, which is
-- the whole text if there is no number. Values out of range are clamped.
abbrev pub long_max : ℕ
long_max = 9223372036854775807

abbrev pub clamp_at : ℕ → ℕ → ℕ
clamp_at top n = if ltb top n then top else n

unfoldable pub strtol_unsigned : Text → Text → (ℕ → ℤ) → ℤ × Text
unfolding read_digits
strtol_unsigned whole t value =
    let (n, rest) = read_digits 0 t in
    if starts_with_digit t then (value n, rest) else (pos 0, whole)

unfoldable pub strtol_signed : Text → Text → ℤ × Text
unfolding strtol_unsigned
strtol_signed whole [] = (pos 0, whole)
strtol_signed whole (b ∷ t) =
    if b == b'-'
    then strtol_unsigned whole t (λ n. negate (clamp_at (suc long_max) n))
    else if b == b'+'
    then strtol_unsigned whole t (λ n. pos (clamp_at long_max n))
    else strtol_unsigned whole (b ∷ t) (λ n. pos (clamp_at long_max n))

unfoldable pub strtol : Text → ℤ × Text
unfolding strtol_signed
strtol t = strtol_signed t (skip_spaces t)

-- `atoi`; what it does on a number out of the range of `int` is undefined.
unfoldable pub atoi : Text → ℤ
unfolding strtol
atoi t = (strtol t).0
