-- ===== src/Registry/Refines.antt =====
-- On a database whose operations succeed, `EndpointRegistry` of src/matter/endpoint_registry.cpp is
-- a table of ids with a counter.
use mathlib.Core.Path.{subst}
use wemo_matter_bridge.Prelude.{
  as_uint16, ℕ, suc, ◌<◌, ◌≡◌, ◌≢◌, refl, sym, ap, ◌∙◌, inl, inr, ℤ, pos, true, Option, none, some,
  some_inj, arith, Bool-cases, Text, c_str, text_eq, text_eq_refl,
}
use wemo_matter_bridge.Registry.Sqlite.{Sqlite, Tables, create_tables, select_endpoint_id}
use wemo_matter_bridge.Registry.EndpointRegistry.{
  to_string, Answer, answered, id_of, query_endpoint_id, query_next_endpoint_id, connect, lookup,
  assign, resolve, begin_assignment, get_or_assign,
}
use wemo_matter_bridge.Registry.Transaction.{
  InTransaction, query_endpoint_id-Found, query_next-InTransaction,
}
use wemo_matter_bridge.Registry.Atomic.{assigned, connect_lem, begin_lem}
use wemo_matter_bridge.Registry.Reliable.{
  step_of, Counted, IsReliable, connect_opens, begins, query_finds, query_next_counts, commits,
  store_succeeds,
}

-- The abstract registry, whose counter is `n`: the id of a key that has one, and otherwise the
-- counter, which becomes the id.
abbrev pub answer_for : ℕ → Text → Tables → Option ℤ → Answer × Tables
answer_for n key t none = (answered (some n), assigned key n t)
answer_for n key t (some v) = (answered (some (as_uint16 v)), t)

unused_counter : (n : ℕ) (t : Tables) → Counted n t → (u : Text) → t.endpoint_map u ≢ some (pos n)
unused_counter n t w u h = let (k, e, lt) = w.below u (pos n) h in ground arith

-- The ids go up by one, as long as they are uint16_t values.
pub assigned-Counted :
    (n : ℕ) (key : Text) (t : Tables)
    → Counted n t
    → suc n < 65536
    → Counted (suc n) (assigned key n t)
assigned-Counted n key t w room = record {
  counter = inl (ap (λ m. some (to_string 5 m)) (omega arith));
  small = room;
  below = λ u v h. elim (Bool-cases (text_eq key u)) [
    | inl e ↦ (n, sym (some_inj (rw e at h)), omega arith)
    | inr e ↦ let (k, is_k, lt) = w.below u v (rw e at h) in (k, is_k, omega arith)
  ];
}

module _ ⦃q : Sqlite⦄ (r : IsReliable) where
  abbrev Refines : Answer × Tables → Answer × q.State → Type 0
  Refines spec result = (result.0 ≡ spec.0) × (q.disk result.1 ≡ spec.1)

  assign_counter :
      (n : ℕ) (udn : Text) (s : q.State) {t : Tables}
      → InTransaction t t s
      → Counted n t
      → t.endpoint_map (c_str udn) ≡ none
      → Refines (answer_for n (c_str udn) t none) (resolve udn none s)
  unfolding resolve assign
  assign_counter n udn s {t} w counted absent =
      let s₁ = (query_next_endpoint_id s).1 in
      subst (λ o. Refines (answer_for n (c_str udn) t none) (assign udn o s₁))
        (sym (query_next_counts r n s w counted))
        (store_succeeds r udn n s₁ (query_next-InTransaction s w) absent
          (unused_counter n t counted))

  resolve-Refines :
      (n : ℕ) (udn : Text) (s : q.State) {t : Tables} (o : Option ℤ)
      → InTransaction t t s
      → Counted n t
      → t.endpoint_map (c_str udn) ≡ o
      → Refines (answer_for n (c_str udn) t o) (resolve udn (id_of (step_of o)) s)
  unfolding resolve
  resolve-Refines n udn s (some v) w counted e = (refl, commits r s w)
  resolve-Refines n udn s none w counted e = assign_counter n udn s w counted e

  -- On a database whose operations succeed, let the counter stand at `n` below 65536, as its decimal
  -- text or, with no counter and `n` being 2, as the default, and let every stored id be a number
  -- below `n`. Then `GetOrAssign` answers and leaves what the abstract registry does: the id that the
  -- udn has, with the tables as they were, or `n`, with the new mapping and the counter moved on.
  pub get_or_assign_refines :
      (n : ℕ) (path udn : Text) (s : q.State)
      → Counted n (q.disk s)
      → ((get_or_assign path udn s).0
          ≡ (answer_for n (c_str udn) (q.disk s) ((q.disk s).endpoint_map (c_str udn))).0)
        × (q.disk (get_or_assign path udn s).1
            ≡ (answer_for n (c_str udn) (q.disk s) ((q.disk s).endpoint_map (c_str udn))).1)
  unfolding get_or_assign
  get_or_assign_refines n path udn s counted =
      let spec = answer_for n (c_str udn) (q.disk s) ((q.disk s).endpoint_map (c_str udn)) in
      let (kept, sees) = connect_lem path s in
      let (_, ready) = begin_lem t₁ kept in
      let w = ready (sees opened_) begun in
      let found = query_finds r udn t₂ w.sees in
      subst (Refines spec) (sym went_on) (
        subst (λ o. Refines spec (resolve udn o (query_endpoint_id udn t₂).1)) (sym found)
          (resolve-Refines n udn (query_endpoint_id udn t₂).1 ((q.disk s).endpoint_map (c_str udn))
            (query_endpoint_id-Found udn t₂ w).0 counted refl))
    where
      t₁ : q.State
      t₁ = (connect path s).1

      t₂ : q.State
      t₂ = (begin_assignment t₁).1

      opened_ : (connect path s).0 ≡ true
      opened_ = connect_opens r path s

      begun : (begin_assignment t₁).0 ≡ true
      begun = begins r t₁

      went_on :
          get_or_assign path udn s
          ≡ resolve udn (query_endpoint_id udn t₂).0 (query_endpoint_id udn t₂).1
      went_on = rw (opened_, get_or_assign) (rw (begun, get_or_assign) refl)

  query_disk : (udn : Text) (s : q.State) → q.disk (query_endpoint_id udn s).1 ≡ q.disk s
  unfolding query_endpoint_id
  query_disk udn s =
      let s₁ = (q.prepare select_endpoint_id s).1 in
      rw (r.prepares select_endpoint_id s, query_endpoint_id)
        ((q.same-finalize _).disk_same
          ∙ ((q.same-step_endpoint_id (c_str udn) s₁).disk_same
              ∙ (q.same-prepare select_endpoint_id s).disk_same))

  -- `Lookup` answers the id of the udn, if it has one, and changes nothing.
  pub lookup_finds :
      (path udn : Text) (s : q.State)
      → ((lookup path udn s).0 ≡ id_of (step_of ((q.disk s).endpoint_map (c_str udn))))
        × (q.disk (lookup path udn s).1 ≡ q.disk s)
  unfolding lookup
  lookup_finds path udn s =
      let (kept, sees) = connect_lem path s in
      let made = q.same-create_tables t₁ in
      rw (opened_, lookup)
        (rw (r.execs create_tables t₁, lookup)
          (
            query_finds r udn t₂ (made.seen_same ∙ sees opened_),
            q.disk-close_db _ ∙ (query_disk udn t₂ ∙ (made.disk_same ∙ kept)),
          ))
    where
      t₁ : q.State
      t₁ = (connect path s).1

      t₂ : q.State
      t₂ = (q.exec create_tables t₁).1

      opened_ : (connect path s).0 ≡ true
      opened_ = connect_opens r path s

  -- The id that a key has after the abstract registry has answered for it.
  recorded :
      (n : ℕ) (key : Text) (t : Tables) (o : Option ℤ)
      → n < 65536
      → t.endpoint_map key ≡ o
      → (id : ℕ) × ((answer_for n key t o).0 ≡ answered (some id))
        × (id_of (step_of ((answer_for n key t o).1.endpoint_map key)) ≡ some id)
  recorded n key t (some v) small e = (as_uint16 v, refl, rw e refl)
  recorded n key t none small e = (n, refl, rw (text_eq_refl key) (ap some (omega (arith, small))))

  -- On a database whose operations succeed, let the counter stand at `n` below 65536, as its decimal
  -- text or, with no counter and `n` being 2, as the default, and let every stored id be a number
  -- below `n`. Then `GetOrAssign` answers an id, and a `Lookup` that follows answers the same id and
  -- leaves the tables as they are.
  pub get_or_assign-lookup :
      (n : ℕ) (path udn : Text) (s : q.State)
      → Counted n (q.disk s)
      → let s' = (get_or_assign path udn s).1 in
        (id : ℕ) × ((get_or_assign path udn s).0 ≡ answered (some id))
        × ((lookup path udn s').0 ≡ some id)
        × (q.disk (lookup path udn s').1 ≡ q.disk s')
  get_or_assign-lookup n path udn s counted =
      let s' = (get_or_assign path udn s).1 in
      let (answer, left) = get_or_assign_refines n path udn s counted in
      let (found, kept) = lookup_finds path udn s' in
      let (id, is_id, stored) =
        recorded n (c_str udn) (q.disk s) ((q.disk s).endpoint_map (c_str udn)) counted.small
          refl in
      (
        id,
        answer ∙ is_id,
        found ∙ (ap (λ (t : Tables). id_of (step_of (t.endpoint_map (c_str udn)))) left ∙ stored),
        kept,
      )
