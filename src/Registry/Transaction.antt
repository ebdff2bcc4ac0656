-- ===== src/Registry/Transaction.antt =====
-- The statements of src/matter/endpoint_registry.cpp inside an open transaction.
use wemo_matter_bridge.Prelude.{
  as_uint16, ℕ, ◌≡◌, ◌≢◌, refl, sym, ap, ◌∙◌, inl, inr, ℤ, pos, Bool, true, false, Option, none,
  some, some_inj, Bool-cases, Option-cases, if◌then◌else◌, Text, c_str,
}
use wemo_matter_bridge.Registry.Sqlite.{
  Sqlite, Tables, with_mapping, with_next, Same, Query, select_endpoint_id, select_next_endpoint_id,
  upsert_next, insert_endpoint, Step, row, done, no_row,
}
use wemo_matter_bridge.Registry.EndpointRegistry.{
  to_string, stoi, id_of, query_endpoint_id, next_of, query_next_endpoint_id,
  upsert_next_endpoint_id, insert_mapping,
}

module _ ⦃q : Sqlite⦄ where
  -- The connection is in a transaction that sees `v`, while `t` is committed.
  pub record InTransaction (t v : Tables) (s : q.State) : Type 0 where
    pub committed : q.disk s ≡ t
    pub sees : q.seen s ≡ v
    pub active : q.in_transaction s ≡ true

  pub Same-InTransaction :
      {t v : Tables} (s s' : q.State)
      → Same q.disk q.seen q.in_transaction s s'
      → InTransaction t v s
      → InTransaction t v s'
  Same-InTransaction s s' h w = record {
    committed = h.disk_same ∙ w.committed;
    sees = h.seen_same ∙ w.sees;
    active = h.transaction_same ∙ w.active;
  }

  prepared :
      {t v : Tables} (k : Query) (s : q.State)
      → InTransaction t v s
      → InTransaction t v (q.prepare k s).1
  prepared k s = Same-InTransaction s _ (q.same-prepare k s)

  finalized : {t v : Tables} (s : q.State) → InTransaction t v s → InTransaction t v (q.finalize s)
  finalized s = Same-InTransaction s _ (q.same-finalize s)

  -- A query leaves the transaction as it was, and what it finds is in the table.
  abbrev pub Found : Tables → Tables → Text → Option ℕ × q.State → Type 0
  Found t v key r =
      InTransaction t v r.1
      × ((id : ℕ) → r.0 ≡ some id → (k : ℤ) × (v.endpoint_map key ≡ some k) × (id ≡ as_uint16 k))

  id_of_row : (r : Step ℤ) (id : ℕ) → id_of r ≡ some id → (k : ℤ) × (r ≡ row k) × (id ≡ as_uint16 k)
  id_of_row (row k) id h = (k, refl, sym (some_inj h))
  id_of_row done id h = cc
  id_of_row no_row id h = cc

  pub query_endpoint_id-Found :
      {t v : Tables} (udn : Text) (s : q.State)
      → InTransaction t v s
      → Found t v (c_str udn) (query_endpoint_id udn s)
  unfolding query_endpoint_id
  query_endpoint_id-Found {t} {v} udn s w = elim (Bool-cases (q.prepare select_endpoint_id s).0) [
    | inl e ↦ rw (e, query_endpoint_id) (finalized _ stepped, found)
    | inr e ↦ rw (e, query_endpoint_id) (w₁, λ id h. absurd (none-ne-some id h))
  ]
    where
      s₁ : q.State
      s₁ = (q.prepare select_endpoint_id s).1

      w₁ : InTransaction t v s₁
      w₁ = prepared select_endpoint_id s w

      stepped : InTransaction t v (q.step_endpoint_id (c_str udn) s₁).1
      stepped = Same-InTransaction s₁ _ (q.same-step_endpoint_id (c_str udn) s₁) w₁

      found :
          (id : ℕ)
          → id_of (q.step_endpoint_id (c_str udn) s₁).0 ≡ some id
          → (k : ℤ) × (v.endpoint_map (c_str udn) ≡ some k) × (id ≡ as_uint16 k)
      found id h =
          let (k, is_row, same) = id_of_row (q.step_endpoint_id (c_str udn) s₁).0 id h in
          (
            k,
            ap (λ (x : Tables). x.endpoint_map (c_str udn)) (sym w₁.sees)
                ∙ q.endpoint_id-row (c_str udn) s₁ k is_row,
            same,
          )

      none-ne-some : (id : ℕ) → ◌≡◌ {A = Option ℕ} none (some id) → ⊥
      none-ne-some id h = cc

  next_of-InTransaction :
      {t v : Tables} (r : Step (Option Text)) (s : q.State)
      → InTransaction t v s
      → InTransaction t v (next_of r s).1
  unfolding next_of
  next_of-InTransaction done s w = finalized s w
  next_of-InTransaction no_row s w = finalized s w
  next_of-InTransaction (row none) s w = finalized s w
  next_of-InTransaction (row (some value)) s w = elim (Option-cases (stoi value)) [
    | inl e ↦ rw (e, next_of) w
    | inr (k, e) ↦ rw (e, next_of) (finalized s w)
  ]

  pub query_next-InTransaction :
      {t v : Tables} (s : q.State)
      → InTransaction t v s
      → InTransaction t v (query_next_endpoint_id s).1
  unfolding query_next_endpoint_id
  query_next-InTransaction s w =
      let s₁ = (q.prepare select_next_endpoint_id s).1 in
      let w₁ = prepared select_next_endpoint_id s w in
      elim (Bool-cases (q.prepare select_next_endpoint_id s).0) [
        | inl e ↦
            rw (e, query_next_endpoint_id)
              (next_of-InTransaction (q.step_next s₁).0 (q.step_next s₁).1
                (Same-InTransaction s₁ _ (q.same-step_next s₁) w₁))
        | inr e ↦ rw (e, query_next_endpoint_id) w₁
      ]

  -- An insertion adds the mapping or nothing, and adds it only where it clashes with none.
  abbrev pub Inserted : Tables → Tables → Text → ℕ → Bool → q.State → Type 0
  Inserted t v key id true s' =
      InTransaction t (with_mapping key id v) s'
      × (v.endpoint_map key ≡ none)
      × ((u : Text) → v.endpoint_map u ≢ some (pos id))
  Inserted t v key id false s' = InTransaction t v s'

  pub insert_mapping-Inserted :
      {t v : Tables} (udn : Text) (id : ℕ) (s : q.State)
      → InTransaction t v s
      → Inserted t v (c_str udn) id (insert_mapping udn id s).0 (insert_mapping udn id s).1
  unfolding insert_mapping
  insert_mapping-Inserted {t} {v} udn id s w = elim (Bool-cases (q.prepare insert_endpoint s).0) [
    | inr e ↦ rw (e, insert_mapping) w₁
    | inl e ↦ elim (Bool-cases (q.step_insert (c_str udn) id s₁).0) [
      | inr e₁ ↦
          rw (e, insert_mapping)
            (rw e₁ (
              finalized _ (record {
                committed = kept;
                sees = q.seen-step_insert (c_str udn) id s₁ ∙ rw e₁ w₁.sees;
                active = running;
              })))
      | inl e₁ ↦
          rw (e, insert_mapping)
            (rw e₁ (
              finalized _ (record {
                committed = kept;
                sees =
                    q.seen-step_insert (c_str udn) id s₁
                    ∙ rw e₁ (ap (with_mapping (c_str udn) id) w₁.sees);
                active = running;
              }),
              rw w₁.sees at (q.primary_key (c_str udn) id s₁ e₁),
              rw w₁.sees at (q.unique_id (c_str udn) id s₁ e₁),
            ))
    ]
  ]
    where
      s₁ : q.State
      s₁ = (q.prepare insert_endpoint s).1

      w₁ : InTransaction t v s₁
      w₁ = prepared insert_endpoint s w

      kept : q.disk (q.step_insert (c_str udn) id s₁).1 ≡ t
      kept = q.disk-step_insert (c_str udn) id s₁ w₁.active ∙ w₁.committed

      running : q.in_transaction (q.step_insert (c_str udn) id s₁).1 ≡ true
      running = q.transaction-step_insert (c_str udn) id s₁ ∙ w₁.active

  pub upsert_next-InTransaction :
      {t v : Tables} (n : ℕ) (s : q.State)
      → InTransaction t v s
      → InTransaction t
          (if (upsert_next_endpoint_id n s).0 then with_next (to_string 5 n) v else v)
          (upsert_next_endpoint_id n s).1
  unfolding upsert_next_endpoint_id
  upsert_next-InTransaction {t} {v} n s w = elim (Bool-cases (q.prepare upsert_next s).0) [
    | inr e ↦ rw (e, upsert_next_endpoint_id) w₁
    | inl e ↦
        rw (e, upsert_next_endpoint_id)
          (finalized _ (record {
            committed = q.disk-step_upsert text s₁ w₁.active ∙ w₁.committed;
            sees =
                q.seen-step_upsert text s₁
                ∙ ap (λ x. if (q.step_upsert text s₁).0 then with_next text x else x) w₁.sees;
            active = q.transaction-step_upsert text s₁ ∙ w₁.active;
          }))
  ]
    where
      text : Text
      text = to_string 5 n

      s₁ : q.State
      s₁ = (q.prepare upsert_next s).1

      w₁ : InTransaction t v s₁
      w₁ = prepared upsert_next s w
