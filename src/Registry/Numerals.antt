-- ===== src/Registry/Numerals.antt =====
-- The counter of src/matter/endpoint_registry.cpp is read back as it was written.
use wemo_matter_bridge.Prelude.{
  ℕ, zero, suc, ◌+◌, ◌-◌, ◌*◌, ◌/◌, ◌%◌, ◌≤◌, ◌<◌, ◌≡◌, refl, inl, inr, pos, [], ◌∷◌, ◌++◌, some,
  arith, ltb, Bool-cases, All, Text,
}
use wemo_matter_bridge.Prelude.Digits.{decimal, IsDigit, strtol-decimal}
use wemo_matter_bridge.Registry.EndpointRegistry.{to_string, stoi}

-- 10 to the number of digits.
abbrev bound : ℕ → ℕ
bound zero = 1
bound (suc digits) = 10 * bound digits

-- A text of one digit or more that stands for a number.
abbrev Numeral : ℕ → Text → Type 0
Numeral n [] = ⊥
Numeral n (b ∷ t) = IsDigit b × All IsDigit t × (decimal 0 (b ∷ t) ≡ n)

decimal-append :
    (acc : ℕ) (t : Text) (d : ℕ) → decimal acc (t ++ d ∷ []) ≡ decimal acc t * 10 + (d - b'0')
decimal-append acc [] d = refl
decimal-append acc (b ∷ t) d = decimal-append (acc * 10 + (b - b'0')) t d

All-IsDigit : (t : Text) (d : ℕ) → All IsDigit t → IsDigit d → All IsDigit (t ++ d ∷ [])
All-IsDigit [] d h k = (k, tt)
All-IsDigit (b ∷ t) d h k = (h.0, All-IsDigit t d h.1 k)

Numeral-append : (n : ℕ) (t : Text) → Numeral (n / 10) t → Numeral n (t ++ (n % 10 + b'0') ∷ [])
Numeral-append n [] h = absurd h
Numeral-append n (b ∷ t) (h, k, e) = (
  h,
  All-IsDigit t (n % 10 + b'0') k (ground arith),
  omega (arith, decimal-append 0 (b ∷ t) (n % 10 + b'0'), e),
)

to_string-Numeral : (digits n : ℕ) → n < bound digits → 0 < n → Numeral n (to_string digits n)
unfolding to_string
to_string-Numeral zero n h k = absurd (omega arith)
to_string-Numeral (suc digits) n h k = elim (Bool-cases (ltb n 10)) [
  | inl small ↦ rw (small, to_string) (ground arith, tt, omega arith)
  | inr large ↦
      rw (large, to_string)
        (Numeral-append n (to_string digits (n / 10))
          (to_string-Numeral digits (n / 10) (omega arith) (ground arith)))
]

stoi-Numeral : (n : ℕ) (t : Text) → n ≤ 2147483647 → Numeral n t → stoi t ≡ some (pos n)
unfolding stoi
stoi-Numeral n [] small h = absurd h
stoi-Numeral n (b ∷ t) small (h, k, e) = rw (strtol-decimal b t h k, stoi) (rw e (ground arith))

-- The counter is a uint16_t.
pub stoi-to_string : (n : ℕ) → n < 65536 → stoi (to_string 5 n) ≡ some (pos n)
unfolding to_string
stoi-to_string zero h = stoi-Numeral 0 (to_string 5 0) (omega arith) (refl, tt, refl)
stoi-to_string (suc n) h =
    stoi-Numeral (suc n) (to_string 5 (suc n)) (omega arith)
      (to_string-Numeral 5 (suc n) (omega arith) (omega arith))
