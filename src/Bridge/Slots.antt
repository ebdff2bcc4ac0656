-- ===== src/Bridge/Slots.antt =====
-- The search of a free endpoint id, and the slots of the endpoint table.
use wemo_matter_bridge.Prelude.{
  ℕ, zero, suc, ◌+◌, ◌-◌, ◌≤◌, ◌<◌, ◌≡◌, ◌≢◌, some_inj, Option-cases, inl, inr, refl, ap, ◌∙◌, List,
  [], ◌∷◌, Option, none, some, arith, get_elem?,
}
use native.Mathlib.Nat.{zero-add, suc-add}
use native.Mathlib.Decide.{dec_le}
use wemo_matter_bridge.Bridge.Endpoints.{free_slot, next_endpoint_id}

-- `free_slot` finds the first null slot within the bound.
pub free_slot_found :
    (n : ℕ) (slots : List (Option ℕ)) (i : ℕ)
    → free_slot n slots ≡ some i
    → (i < n) × (get_elem? slots i ≡ some none)
unfolding free_slot
free_slot_found zero slots i h = absurd (cc)
free_slot_found (suc n) [] i h = absurd (cc)
free_slot_found (suc n) (none ∷ slots) i h = ground arith
free_slot_found (suc n) (some d ∷ slots) zero h = ground arith
free_slot_found (suc n) (some d ∷ slots) (suc i) h = ground (arith, free_slot_found n slots i)

-- `free_slot` answers nothing only if the first `n` slots are filled.
pub free_slot_full :
    (n : ℕ) (slots : List (Option ℕ))
    → free_slot n slots ≡ none
    → (i : ℕ) → i < n
    → get_elem? slots i ≢ some none
unfolding free_slot
free_slot_full zero slots h i below e = absurd (omega (arith, below))
free_slot_full (suc n) [] h i below e = cc
free_slot_full (suc n) (none ∷ slots) h i below e = cc
free_slot_full (suc n) (some d ∷ slots) h zero below e = cc (some_inj e)
free_slot_full (suc n) (some d ∷ slots) h (suc i) below e =
    elim (Option-cases (free_slot n slots)) [
      | inl q ↦ free_slot_full n slots q i (omega (arith, below)) e
      | inr (j, q) ↦ cc (rw (q, free_slot) at h)
    ]

-- The id that is tried `k` rounds after `id`.
unfoldable pub candidate : ℕ → ℕ → ℕ → ℕ
candidate first id zero = id
candidate first id (suc k) = candidate first (next_endpoint_id first id) k

next_in_range :
    (first id : ℕ)
    → first < 65536
    → first ≤ id
    → id < 65536
    → (first ≤ next_endpoint_id first id) × (next_endpoint_id first id < 65536)
unfolding next_endpoint_id
next_in_range first id f a b = ground arith

candidate_up : (first id k : ℕ) → first ≤ id → id + k < 65536 → candidate first id k ≡ id + k
unfolding candidate next_endpoint_id
candidate_up first id zero a b = omega arith
candidate_up first id (suc k) a b =
    ground (arith, candidate_up first (id + 1) k (omega arith) (omega arith))

candidate-add :
    (first id j k : ℕ) → candidate first id (j + k) ≡ candidate first (candidate first id j) k
unfolding candidate
candidate-add first id zero k = rw zero-add refl
candidate-add first id (suc j) k = rw suc-add (candidate-add first (next_endpoint_id first id) j k)

wraps_to_first : (first : ℕ) → first < 65536 → next_endpoint_id first 65535 ≡ first
unfolding next_endpoint_id
wraps_to_first first h = ground arith

-- From any dynamic id every dynamic id is tried within one round trip.
pub candidate_reaches :
    (first id target : ℕ)
    → first ≤ id
    → id < 65536
    → first ≤ target
    → target < 65536
    → (k : ℕ) × (k < 65536 - first) × (candidate first id k ≡ target)
unfolding candidate
candidate_reaches first id target a b c d = elim (dec_le id target) [
  | yes up ↦
      (target - id, omega arith, candidate_up first id (target - id) a (omega arith) ∙ omega arith)
  | no down ↦ (
    (65535 - id) + suc (target - first),
    omega arith,
    candidate-add first id (65535 - id) (suc (target - first))
        ∙ (ap (λ x. candidate first (next_endpoint_id first x) (target - first))
              (candidate_up first id (65535 - id) a (omega arith) ∙ omega arith)
            ∙ (ap (λ x. candidate first x (target - first)) (wraps_to_first first (omega arith))
                ∙ (candidate_up first first (target - first) (omega arith) (omega arith)
                    ∙ omega arith))),
  )
]
