-- ===== src/Registry/Atomic.antt =====
-- `GetOrAssign` of src/matter/endpoint_registry.cpp is atomic, whatever fails.
use wemo_matter_bridge.Prelude.{
  as_uint16, ℕ, ◌+◌, ◌%◌, ◌≡◌, ◌≢◌, ◌⊎◌, refl, sym, ◌∙◌, inl, inr, ℤ, pos, true, false, Option,
  none, some, Bool-cases, if◌then◌else◌, Text, c_str,
}
use wemo_matter_bridge.Registry.Sqlite.{
  Sqlite, Tables, with_mapping, with_next, create_tables, commit, rollback, Opened, opened,
  failed_with_handle, failed,
}
use wemo_matter_bridge.Registry.EndpointRegistry.{
  to_string, Answer, raised, answered, query_endpoint_id, upsert_next_endpoint_id, insert_mapping,
  connect, store_mapping, assign, resolve, begin_assignment, get_or_assign,
}
use wemo_matter_bridge.Registry.Transaction.{
  InTransaction, query_endpoint_id-Found, query_next-InTransaction, Inserted,
  insert_mapping-Inserted, upsert_next-InTransaction,
}
use mathlib.Core.Path.{subst}

-- The tables with a new mapping, and the counter moved to the next uint16_t.
abbrev pub assigned : Text → ℕ → Tables → Tables
assigned key id t = with_next (to_string 5 ((id + 1) % 65536)) (with_mapping key id t)

module _ ⦃q : Sqlite⦄ where
  -- What a call leaves in the database: nothing new, unless it answers with an id that the key did
  -- not have and no other key has. Then there is the mapping and the counter, or, if the commit
  -- failed, neither.
  abbrev pub Outcome : Tables → Text → Answer × q.State → Type 0
  Outcome t key (raised, s') = q.disk s' ≡ t
  Outcome t key (answered none, s') = q.disk s' ≡ t
  Outcome t key (answered (some id), s') =
      ((q.disk s' ≡ t) × ((k : ℤ) × (t.endpoint_map key ≡ some k) × (id ≡ as_uint16 k)))
      ⊎ (((q.disk s' ≡ t) ⊎ (q.disk s' ≡ assigned key id t))
          × (t.endpoint_map key ≡ none)
          × ((u : Text) → t.endpoint_map u ≢ some (pos id)))

  committed_or_not :
      {t v : Tables} (s : q.State)
      → InTransaction t v s
      → (q.disk (q.close_db (q.exec commit s).1) ≡ t)
        ⊎ (q.disk (q.close_db (q.exec commit s).1) ≡ v)
  committed_or_not s w = elim (Bool-cases (q.exec commit s).0) [
    | inl e ↦ inr (q.disk-close_db _ ∙ (q.disk-commit s ∙ rw e w.sees))
    | inr e ↦ inl (q.disk-close_db _ ∙ (q.disk-commit s ∙ rw e w.committed))
  ]

  rolled_back :
      {t v : Tables} (s : q.State)
      → InTransaction t v s
      → q.disk (q.close_db (q.exec rollback s).1) ≡ t
  rolled_back s w = q.disk-close_db _ ∙ (q.disk-rollback s ∙ w.committed)

  store_mapping-Outcome :
      {t : Tables} (udn : Text) (id : ℕ) (s : q.State)
      → InTransaction t t s
      → Outcome t (c_str udn) (store_mapping udn id s)
  unfolding store_mapping
  store_mapping-Outcome {t} udn id s w = elim (Bool-cases (insert_mapping udn id s).0) [
    | inr e ↦ subst (Outcome t (c_str udn)) (sym (refused e)) (rolled_back s₁ (rw e at inserted))
    | inl e ↦ elim (Bool-cases (upsert_next_endpoint_id next s₁).0) [
      | inr e₁ ↦
          subst (Outcome t (c_str udn)) (sym (undone e e₁))
            (rolled_back s₂ (upsert_next-InTransaction next s₁ (rw e at inserted).0))
      | inl e₁ ↦
          let (v, absent, unused) = rw e at inserted in
          subst (Outcome t (c_str udn)) (sym (stored e e₁)) (
            inr (
              committed_or_not s₂ (rw e₁ at (upsert_next-InTransaction next s₁ v)),
              absent,
              unused,
            ))
    ]
  ]
    where
      next : ℕ
      next = (id + 1) % 65536

      s₁ : q.State
      s₁ = (insert_mapping udn id s).1

      s₂ : q.State
      s₂ = (upsert_next_endpoint_id next s₁).1

      inserted : Inserted t t (c_str udn) id (insert_mapping udn id s).0 s₁
      inserted = insert_mapping-Inserted udn id s w

      refused :
          (insert_mapping udn id s).0 ≡ false
          → store_mapping udn id s ≡ (answered none, q.close_db (q.exec rollback s₁).1)
      refused e = rw (e, store_mapping) refl

      undone :
          (insert_mapping udn id s).0 ≡ true
          → (upsert_next_endpoint_id next s₁).0 ≡ false
          → store_mapping udn id s ≡ (answered none, q.close_db (q.exec rollback s₂).1)
      undone e e₁ = rw (e, store_mapping) (rw (e₁, store_mapping) refl)

      stored :
          (insert_mapping udn id s).0 ≡ true
          → (upsert_next_endpoint_id next s₁).0 ≡ true
          → store_mapping udn id s ≡ (answered (some id), q.close_db (q.exec commit s₂).1)
      stored e e₁ = rw (e, store_mapping) (rw (e₁, store_mapping) refl)

  assign-Outcome :
      {t : Tables} (udn : Text) (o : Option ℕ) (s : q.State)
      → InTransaction t t s
      → Outcome t (c_str udn) (assign udn o s)
  unfolding assign
  assign-Outcome udn none s w = w.committed
  assign-Outcome udn (some id) s w = store_mapping-Outcome udn id s w

  resolve-Outcome :
      {t : Tables} (udn : Text) (o : Option ℕ) (s : q.State)
      → InTransaction t t s
      → ((id : ℕ)
          → o ≡ some id
          → (k : ℤ) × (t.endpoint_map (c_str udn) ≡ some k) × (id ≡ as_uint16 k))
      → Outcome t (c_str udn) (resolve udn o s)
  unfolding resolve
  resolve-Outcome udn (some id) s w found =
      inl (elim (committed_or_not s w) [ inl e ↦ e | inr e ↦ e ], found id refl)
  resolve-Outcome udn none s w found = assign-Outcome udn _ _ (query_next-InTransaction s w)

  Opened-cases : (o : Opened) → (o ≡ opened) ⊎ (o ≡ failed_with_handle) ⊎ (o ≡ failed)
  Opened-cases opened = inl refl
  Opened-cases failed_with_handle = inr (inl refl)
  Opened-cases failed = inr (inr refl)

  with_directories : Text → q.State → q.State
  with_directories path s = if q.has_parent_path path then q.create_directories path s else s

  directories_disk : (path : Text) (s : q.State) → q.disk (with_directories path s) ≡ q.disk s
  unfolding with_directories
  directories_disk path s = elim (Bool-cases (q.has_parent_path path)) [
    | inl e ↦ rw e (q.disk-create_directories path s)
    | inr e ↦ rw e refl
  ]

  pub connect_lem :
      (path : Text) (s : q.State)
      → (q.disk (connect path s).1 ≡ q.disk s)
        × ((connect path s).0 ≡ true → q.seen (connect path s).1 ≡ q.disk s)
  unfolding connect with_directories
  connect_lem path s =
      let s₁ = with_directories path s in
      let kept = directories_disk path s in
      let opened_disk = q.disk-open_db path s₁ in
      elim (Opened-cases (q.open_db path s₁).0) [
        | inl e ↦ rw (e, connect) (opened_disk ∙ kept, λ h. q.seen-open_db path s₁ e ∙ kept)
        | inr (inl e) ↦
            rw (e, connect) (q.disk-close_db _ ∙ (opened_disk ∙ kept), λ h. absurd (not_true h))
        | inr (inr e) ↦ rw (e, connect) (opened_disk ∙ kept, λ h. absurd (not_true h))
      ]
    where
      not_true : false ≡ true → ⊥
      not_true h = cc

  pub begin_lem :
      {t : Tables} (s : q.State)
      → q.disk s ≡ t
      → (q.disk (begin_assignment s).1 ≡ t)
        × (q.seen s ≡ t → (begin_assignment s).0 ≡ true → InTransaction t t (begin_assignment s).1)
  begin_lem s d =
      let s₁ = (q.exec create_tables s).1 in
      let made = q.same-create_tables s in
      elim (Bool-cases (q.exec create_tables s).0) [
        | inr e ↦ rw e (made.disk_same ∙ d, λ v h. absurd (not_true h))
        | inl e ↦ rw e (
          q.disk-begin s₁ ∙ (made.disk_same ∙ d),
          λ v h. record {
            committed = q.disk-begin s₁ ∙ (made.disk_same ∙ d);
            sees = q.seen-begin s₁ ∙ (made.seen_same ∙ v);
            active = q.transaction-begin s₁ h;
          },
        )
      ]
    where
      not_true : false ≡ true → ⊥
      not_true h = cc

  -- Whatever fails, and whatever the database holds, `GetOrAssign` leaves the tables as they were, or
  -- adds one mapping for a udn that has none together with the counter. Where it throws or answers
  -- nothing it leaves them as they were. Where it answers an id, that is the stored value of the udn
  -- as a uint16_t, or the udn had none and no other udn has the id.
  pub get_or_assign-Outcome :
      (path udn : Text) (s : q.State) → Outcome (q.disk s) (c_str udn) (get_or_assign path udn s)
  unfolding get_or_assign
  get_or_assign-Outcome path udn s =
      let s₁ = (connect path s).1 in
      let s₂ = (begin_assignment s₁).1 in
      let (kept, sees) = connect_lem path s in
      let (begun, ready) = begin_lem s₁ kept in
      elim (Bool-cases (connect path s).0) [
        | inr e ↦ subst (Outcome (q.disk s) (c_str udn)) (sym (not_opened e)) kept
        | inl e ↦ elim (Bool-cases (begin_assignment s₁).0) [
          | inr e₁ ↦
              subst (Outcome (q.disk s) (c_str udn)) (sym (not_begun e e₁))
                (q.disk-close_db s₂ ∙ begun)
          | inl e₁ ↦
              let (w, found) = query_endpoint_id-Found udn s₂ (ready (sees e) e₁) in
              subst (Outcome (q.disk s) (c_str udn)) (sym (went_on e e₁)) (
                resolve-Outcome udn (query_endpoint_id udn s₂).0 (query_endpoint_id udn s₂).1 w
                  found)
        ]
      ]
    where
      t₁ : q.State
      t₁ = (connect path s).1

      t₂ : q.State
      t₂ = (begin_assignment t₁).1

      not_opened : (connect path s).0 ≡ false → get_or_assign path udn s ≡ (answered none, t₁)
      not_opened e = rw (e, get_or_assign) refl

      not_begun :
          (connect path s).0 ≡ true
          → (begin_assignment t₁).0 ≡ false
          → get_or_assign path udn s ≡ (answered none, q.close_db t₂)
      not_begun e e₁ = rw (e, get_or_assign) (rw (e₁, get_or_assign) refl)

      went_on :
          (connect path s).0 ≡ true
          → (begin_assignment t₁).0 ≡ true
          → get_or_assign path udn s
            ≡ resolve udn (query_endpoint_id udn t₂).0 (query_endpoint_id udn t₂).1
      went_on e e₁ = rw (e, get_or_assign) (rw (e₁, get_or_assign) refl)
