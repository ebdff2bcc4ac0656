-- ===== src/Registry/Reliable.antt =====
-- `EndpointRegistry` of src/matter/endpoint_registry.cpp on a database whose operations succeed.
use wemo_matter_bridge.Prelude.{
  ℕ, ◌+◌, ◌%◌, ◌<◌, ◌≡◌, ◌≢◌, ◌⊎◌, refl, sym, ap, ◌∙◌, inl, inr, ℤ, pos, true, Option, none, some,
  arith, Text, c_str,
}
use wemo_matter_bridge.Registry.Sqlite.{
  Sqlite, Tables, with_mapping, Sql, create_tables, begin_immediate, commit, Query,
  select_endpoint_id, select_next_endpoint_id, upsert_next, insert_endpoint, opened, Step, row,
  done,
}
use wemo_matter_bridge.Registry.Numerals.{stoi-to_string}
use wemo_matter_bridge.Registry.EndpointRegistry.{
  to_string, answered, id_of, query_endpoint_id, next_of, query_next_endpoint_id,
  upsert_next_endpoint_id, insert_mapping, connect, store_mapping, begin_assignment,
}
use wemo_matter_bridge.Registry.Transaction.{
  InTransaction, insert_mapping-Inserted, upsert_next-InTransaction,
}
use wemo_matter_bridge.Registry.Atomic.{assigned}

abbrev pub step_of : {A : Type 0} → Option A → Step A
step_of none = done
step_of (some a) = row a

abbrev pub step_next_of : Option Text → Step (Option Text)
step_next_of none = done
step_next_of (some t) = row (some t)

-- The counter stands at `n`, and every id is a number below it.
pub record Counted (n : ℕ) (t : Tables) : Type 0 where
  pub counter :
      (t.next_endpoint_id ≡ some (to_string 5 n)) ⊎ ((t.next_endpoint_id ≡ none) × (n ≡ 2))
  pub small : n < 65536
  pub below : (u : Text) (v : ℤ) → t.endpoint_map u ≡ some v → (k : ℕ) × (v ≡ pos k) × (k < n)

module _ ⦃q : Sqlite⦄ where
  -- No operation fails, a SELECT finds what is in the table, and an INSERT that clashes with nothing
  -- is made.
  pub record IsReliable : Type 0 where
    pub opens : (p : Text) (s : q.State) → (q.open_db p s).0 ≡ opened
    pub execs : (k : Sql) (s : q.State) → (q.exec k s).0 ≡ true
    pub prepares : (k : Query) (s : q.State) → (q.prepare k s).0 ≡ true
    pub finds :
        (u : Text) (s : q.State) → (q.step_endpoint_id u s).0 ≡ step_of ((q.seen s).endpoint_map u)
    pub reads : (s : q.State) → (q.step_next s).0 ≡ step_next_of (q.seen s).next_endpoint_id
    pub upserts : (t : Text) (s : q.State) → (q.step_upsert t s).0 ≡ true
    pub inserts :
        (u : Text) (n : ℕ) (s : q.State)
        → (q.seen s).endpoint_map u ≡ none
        → ((v : Text) → (q.seen s).endpoint_map v ≢ some (pos n))
        → (q.step_insert u n s).0 ≡ true

  module _ (r : IsReliable) where
    pub connect_opens : (path : Text) (s : q.State) → (connect path s).0 ≡ true
    unfolding connect
    connect_opens path s = rw (r.opens path _, connect) refl

    pub begins : (s : q.State) → (begin_assignment s).0 ≡ true
    begins s = rw (r.execs create_tables s) (r.execs begin_immediate _)

    pub query_finds :
        (udn : Text) (s : q.State) {v : Tables}
        → q.seen s ≡ v
        → (query_endpoint_id udn s).0 ≡ id_of (step_of (v.endpoint_map (c_str udn)))
    unfolding query_endpoint_id
    query_finds udn s e =
        rw (r.prepares select_endpoint_id s, query_endpoint_id)
          (ap id_of (
            r.finds (c_str udn) _
            ∙ ap (λ (x : Tables). step_of (x.endpoint_map (c_str udn)))
                ((q.same-prepare select_endpoint_id s).seen_same ∙ e)))

    next_of_counter :
        (n : ℕ) (t : Tables) (s : q.State)
        → Counted n t
        → (next_of (step_next_of t.next_endpoint_id) s).0 ≡ some n
    unfolding next_of
    next_of_counter n t s w = elim w.counter [
      | inl e ↦ rw e (rw (stoi-to_string n w.small, next_of) (ap some (omega (arith, w.small))))
      | inr (e, two) ↦ rw e (ap some (sym two))
    ]

    pub query_next_counts :
        (n : ℕ) (s : q.State) {t v : Tables}
        → InTransaction t v s
        → Counted n v
        → (query_next_endpoint_id s).0 ≡ some n
    unfolding query_next_endpoint_id
    query_next_counts n s {t} {v} w counted =
        let s₁ = (q.prepare select_next_endpoint_id s).1 in
        let seen₁ = (q.same-prepare select_next_endpoint_id s).seen_same ∙ w.sees in
        let stepped : (q.step_next s₁).0 ≡ step_next_of v.next_endpoint_id =
          r.reads s₁ ∙ ap (λ (x : Tables). step_next_of x.next_endpoint_id) seen₁ in
        rw (r.prepares select_next_endpoint_id s, query_next_endpoint_id)
          (ap (λ x. (next_of x (q.step_next s₁).1).0) stepped
            ∙ next_of_counter n v (q.step_next s₁).1 counted)

    insert_succeeds :
        (udn : Text) (id : ℕ) (s : q.State) {t v : Tables}
        → InTransaction t v s
        → v.endpoint_map (c_str udn) ≡ none
        → ((u : Text) → v.endpoint_map u ≢ some (pos id))
        → (insert_mapping udn id s).0 ≡ true
    unfolding insert_mapping
    insert_succeeds udn id s {t} {v} w absent unused =
        let seen₁ = (q.same-prepare insert_endpoint s).seen_same ∙ w.sees in
        rw (r.prepares insert_endpoint s, insert_mapping)
          (r.inserts (c_str udn) id _ (rw seen₁ absent) (rw seen₁ unused))

    upsert_succeeds : (n : ℕ) (s : q.State) → (upsert_next_endpoint_id n s).0 ≡ true
    unfolding upsert_next_endpoint_id
    upsert_succeeds n s =
        rw (r.prepares upsert_next s, upsert_next_endpoint_id) (r.upserts (to_string 5 n) _)

    pub commits :
        (s : q.State) {t v : Tables}
        → InTransaction t v s
        → q.disk (q.close_db (q.exec commit s).1) ≡ v
    commits s w = q.disk-close_db _ ∙ (q.disk-commit s ∙ rw (r.execs commit s) w.sees)

    pub store_succeeds :
        (udn : Text) (id : ℕ) (s : q.State) {t : Tables}
        → InTransaction t t s
        → t.endpoint_map (c_str udn) ≡ none
        → ((u : Text) → t.endpoint_map u ≢ some (pos id))
        → ((store_mapping udn id s).0 ≡ answered (some id))
          × (q.disk (store_mapping udn id s).1 ≡ assigned (c_str udn) id t)
    unfolding store_mapping
    store_succeeds udn id s {t} w absent unused =
        rw (inserted, store_mapping)
          (rw (upserted, store_mapping)
            (refl, commits s₂ (rw upserted at (upsert_next-InTransaction next s₁ (into_table)))))
      where
        next : ℕ
        next = (id + 1) % 65536

        s₁ : q.State
        s₁ = (insert_mapping udn id s).1

        s₂ : q.State
        s₂ = (upsert_next_endpoint_id next s₁).1

        inserted : (insert_mapping udn id s).0 ≡ true
        inserted = insert_succeeds udn id s w absent unused

        upserted : (upsert_next_endpoint_id next s₁).0 ≡ true
        upserted = upsert_succeeds next s₁

        into_table : InTransaction t (with_mapping (c_str udn) id t) s₁
        into_table = (rw inserted at (insert_mapping-Inserted udn id s w)).0
