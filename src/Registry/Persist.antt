-- ===== src/Registry/Persist.antt =====
-- What a sequence of calls of `GetOrAssign`, src/matter/endpoint_registry.cpp, does to the mappings.
use wemo_matter_bridge.Prelude.{
  ℕ, ◌≡◌, ◌≢◌, sym, ◌∙◌, inl, inr, ℤ, pos, List, [], ◌∷◌, none, some, Bool-cases, Text, c_str,
  text_eq, text_eq_sound,
}
use mathlib.Core.Path.{subst}
use wemo_matter_bridge.Registry.Sqlite.{Sqlite, Tables}
use wemo_matter_bridge.Registry.EndpointRegistry.{Answer, raised, answered, get_or_assign}
use wemo_matter_bridge.Registry.Atomic.{assigned, Outcome, get_or_assign-Outcome}

-- No two udns have one id.
abbrev pub Unique : Tables → Type 0
Unique t = (u v : Text) (k : ℤ) → t.endpoint_map u ≡ some k → t.endpoint_map v ≡ some k → u ≡ v

-- Every mapping of the first tables is one of the second.
abbrev pub Extends : Tables → Tables → Type 0
Extends t t' = (u : Text) (k : ℤ) → t.endpoint_map u ≡ some k → t'.endpoint_map u ≡ some k

assigned-Extends :
    (key : Text) (id : ℕ) (t : Tables) → t.endpoint_map key ≡ none → Extends t (assigned key id t)
assigned-Extends key id t absent u k h = elim (Bool-cases (text_eq key u)) [
  | inr e ↦ rw e h
  | inl e ↦ absurd (clash (sym (rw (sym (text_eq_sound key u e)) at h) ∙ absent))
]
  where
    clash : some k ≡ none → ⊥
    clash e = cc

assigned-Unique :
    (key : Text) (id : ℕ) (t : Tables)
    → ((u : Text) → t.endpoint_map u ≢ some (pos id))
    → Unique t
    → Unique (assigned key id t)
assigned-Unique key id t unused unique u v k h j = elim (Bool-cases (text_eq key u)) [
  | inl e ↦ elim (Bool-cases (text_eq key v)) [
    | inl e₁ ↦ sym (text_eq_sound key u e) ∙ text_eq_sound key v e₁
    | inr e₁ ↦ absurd (unused v (rw e₁ at j ∙ sym (rw e at h)))
  ]
  | inr e ↦ elim (Bool-cases (text_eq key v)) [
    | inl e₁ ↦ absurd (unused u (rw e at h ∙ sym (rw e₁ at j)))
    | inr e₁ ↦ unique u v k (rw e at h) (rw e₁ at j)
  ]
]

module _ ⦃q : Sqlite⦄ where
  abbrev pub Grown : Tables → Tables → Type 0
  Grown t t' = Extends t t' × (Unique t → Unique t')

  Grown-same : (t t' : Tables) → t' ≡ t → Grown t t'
  Grown-same t t' e = subst (Grown t) (sym e) ((λ u k h. h), (λ h. h))

  Grown-assigned :
      (key : Text) (id : ℕ) (t t' : Tables)
      → t.endpoint_map key ≡ none
      → ((u : Text) → t.endpoint_map u ≢ some (pos id))
      → t' ≡ assigned key id t
      → Grown t t'
  Grown-assigned key id t t' absent unused e =
      subst (Grown t) (sym e) (assigned-Extends key id t absent, assigned-Unique key id t unused)

  pub Outcome-Grown :
      (t : Tables) (key : Text) (a : Answer) (s' : q.State)
      → Outcome t key (a, s')
      → Grown t (q.disk s')
  Outcome-Grown t key raised s' h = Grown-same t _ h
  Outcome-Grown t key (answered none) s' h = Grown-same t _ h
  Outcome-Grown t key (answered (some id)) s' (inl h) = Grown-same t _ h.0
  Outcome-Grown t key (answered (some id)) s' (inr (inl e, absent, unused)) = Grown-same t _ e
  Outcome-Grown t key (answered (some id)) s' (inr (inr e, absent, unused)) =
      Grown-assigned key id t _ absent unused e

  -- Calls one after another, each with the path of its registry and its udn.
  unfoldable pub call_all : List (Text × Text) → q.State → q.State
  unfolding get_or_assign
  call_all [] s = s
  call_all ((path, udn) ∷ calls) s = call_all calls (get_or_assign path udn s).1

  -- Whatever calls are made and whatever fails in them, a udn that has an id keeps it, and if no two
  -- udns have one id then none do after the calls.
  pub call_all_keeps :
      (calls : List (Text × Text)) (s : q.State)
      → Extends (q.disk s) (q.disk (call_all calls s))
        × (Unique (q.disk s) → Unique (q.disk (call_all calls s)))
  unfolding call_all
  call_all_keeps [] s = ((λ u k h. h), (λ h. h))
  call_all_keeps ((path, udn) ∷ calls) s =
      let s₁ = (get_or_assign path udn s).1 in
      let (extends, unique) =
        Outcome-Grown (q.disk s) (c_str udn) (get_or_assign path udn s).0 s₁
          (get_or_assign-Outcome path udn s) in
      let (extends', unique') = call_all_keeps calls s₁ in
      ((λ u k h. extends' u k (extends u k h)), (λ h. unique' (unique h)))
