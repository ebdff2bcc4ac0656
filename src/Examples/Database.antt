-- ===== src/Examples/Database.antt =====
-- A small database of two lists with all the laws, on which no operation fails.
use wemo_matter_bridge.Prelude.{
  ℕ, ◌≡◌, ◌≢◌, refl, ap, ◌∙◌, inl, inr, ℤ, pos, negsuc, Bool, true, false, not, ◌&&◌, ◌||◌, List,
  [], ◌∷◌, Option, none, some, arith, ◌==◌, if◌then◌else◌, Bool-cases, Text, text_eq, text_eq_sound,
}
use wemo_matter_bridge.Registry.Sqlite.{
  Sqlite, Tables, Same, with_mapping, Sql, create_tables, begin_immediate, commit, rollback, opened,
  row, done,
}
use wemo_matter_bridge.Registry.Reliable.{IsReliable, step_of, step_next_of}

abbrev pub find : Text → List (Text × ℤ) → Option ℤ
find u [] = none
find u ((k, v) ∷ m) = if text_eq k u then some v else find u m

abbrev pub is_id : ℕ → Option ℤ → Bool
is_id n (some (pos k)) = k == n
is_id n (some (negsuc k)) = false
is_id n none = false

-- Whether a key of the first list has the id in the second.
abbrev pub taken : ℕ → List (Text × ℤ) → List (Text × ℤ) → Bool
taken n [] m = false
taken n ((k, v) ∷ ks) m = is_id n (find k m) || taken n ks m

abbrev pub absent : Option ℤ → Bool
absent none = true
absent (some v) = false

pub record Contents : Type 0 where
  pub ids : List (Text × ℤ)
  pub next : Option Text

pub record Db : Type 0 where
  pub stored : Contents
  pub working : Contents
  pub active : Bool

abbrev pub tables : Contents → Tables
tables t = record { endpoint_map = λ u. find u t.ids; next_endpoint_id = t.next }

abbrev pub insertable : Text → ℕ → Db → Bool
insertable u n s = absent (find u s.working.ids) && not (taken n s.working.ids s.working.ids)

abbrev pub inserted : Text → ℕ → Db → Db
inserted u n s =
    if insertable u n s
    then record s { working = record (s.working) { ids = (u, pos n) ∷ s.working.ids } }
    else s

abbrev pub run : Sql → Db → Db
run create_tables s = s
run begin_immediate s = record s { active = true }
run commit s = record s { stored = s.working; active = false }
run rollback s = record s { working = s.stored; active = false }

taken_found :
    (n : ℕ) (u : Text) (ks m : List (Text × ℤ))
    → find u m ≡ some (pos n)
    → absent (find u ks) ≡ false
    → taken n ks m ≡ true
taken_found n u [] m h k = cc
taken_found n u ((key, v) ∷ ks) m h k = elim (Bool-cases (text_eq key u)) [
  | inl e ↦ rw (ap (λ x. find x m) (text_eq_sound key u e) ∙ h) (ground arith)
  | inr e ↦ let later = taken_found n u ks m h (rw e at k) in ground arith
]

is_id_sound : (n : ℕ) (o : Option ℤ) → is_id n o ≡ true → o ≡ some (pos n)
is_id_sound n none h = cc
is_id_sound n (some (negsuc k)) h = cc
is_id_sound n (some (pos k)) h = ground arith

taken_holder :
    (n : ℕ) (ks m : List (Text × ℤ)) → ((u : Text) → find u m ≢ some (pos n)) → taken n ks m ≡ false
taken_holder n [] m h = refl
taken_holder n ((key, v) ∷ ks) m h = elim (Bool-cases (is_id n (find key m))) [
  | inl e ↦ absurd (h key (is_id_sound n (find key m) e))
  | inr e ↦ rw e (taken_holder n ks m h)
]

pub step_of_row : (o : Option ℤ) (v : ℤ) → step_of o ≡ row v → o ≡ some v
step_of_row none v h = cc
step_of_row (some w) v h = cc

pub step_of_done : (o : Option ℤ) → step_of o ≡ done → o ≡ none
step_of_done none h = refl
step_of_done (some w) h = cc

pub step_next_of_row : (o : Option Text) (t : Text) → step_next_of o ≡ row (some t) → o ≡ some t
step_next_of_row none t h = cc
step_next_of_row (some w) t h = cc

pub step_next_of_done : (o : Option Text) → step_next_of o ≡ done → o ≡ none
step_next_of_done none h = refl
step_next_of_done (some w) h = cc

pub insertable_absent :
    (u : Text) (n : ℕ) (s : Db) → insertable u n s ≡ true → find u s.working.ids ≡ none
insertable_absent u n s h = go (find u s.working.ids) (not (taken n s.working.ids s.working.ids)) h
  where
    go : (o : Option ℤ) (b : Bool) → (absent o && b) ≡ true → o ≡ none
    go none b h = refl
    go (some v) b h = cc

pub insertable_unused :
    (u : Text) (n : ℕ) (s : Db)
    → insertable u n s ≡ true
    → (v : Text) → find v s.working.ids ≢ some (pos n)
insertable_unused u n s h v held =
    let found : absent (find v s.working.ids) ≡ false = rw held refl in
    let clash = taken_found n v s.working.ids s.working.ids held found in
    go (absent (find u s.working.ids)) (taken n s.working.ids s.working.ids) h clash
  where
    go : (a b : Bool) → (a && not b) ≡ true → b ≡ true → ⊥
    go true b h k = ground arith
    go false b h k = cc

pub inserted_seen :
    (u : Text) (n : ℕ) (s : Db)
    → tables (inserted u n s).working
      ≡ (if insertable u n s then with_mapping u n (tables s.working) else tables s.working)
inserted_seen u n s = elim (Bool-cases (insertable u n s)) [ inl e ↦ rw e refl | inr e ↦ rw e refl ]

pub inserted_disk : (u : Text) (n : ℕ) (s : Db) → tables (inserted u n s).stored ≡ tables s.stored
inserted_disk u n s = elim (Bool-cases (insertable u n s)) [ inl e ↦ rw e refl | inr e ↦ rw e refl ]

pub inserted_active : (u : Text) (n : ℕ) (s : Db) → (inserted u n s).active ≡ s.active
inserted_active u n s = elim (Bool-cases (insertable u n s)) [
  | inl e ↦ rw e refl
  | inr e ↦ rw e refl
]

pub unchanged :
    (s : Db) → Same (λ (x : Db). tables x.stored) (λ x. tables x.working) (λ x. x.active) s s
unchanged s = record { disk_same = refl; seen_same = refl; transaction_same = refl }

instance abbrev pub demo_sqlite : Sqlite
demo_sqlite = record {
  State = Db;
  disk = λ s. tables s.stored;
  seen = λ s. tables s.working;
  in_transaction = λ s. s.active;
  has_parent_path = λ p. true;
  create_directories = λ p s. s;
  open_db = λ p s. (opened, record s { working = s.stored; active = false });
  close_db = λ s. record s { working = s.stored; active = false };
  exec = λ k s. (true, run k s);
  prepare = λ k s. (true, s);
  finalize = λ s. s;
  step_endpoint_id = λ u s. (step_of (find u s.working.ids), s);
  step_next = λ s. (step_next_of s.working.next, s);
  step_upsert = λ t s. (true, record s { working = record (s.working) { next = some t } });
  step_insert = λ u n s. (insertable u n s, inserted u n s);
  disk-create_directories = λ p s. refl;
  disk-open_db = λ p s. refl;
  seen-open_db = λ p s h. refl;
  disk-close_db = λ s. refl;
  same-create_tables = unchanged;
  disk-begin = λ s. refl;
  seen-begin = λ s. refl;
  transaction-begin = λ s h. refl;
  disk-commit = λ s. refl;
  disk-rollback = λ s. refl;
  same-prepare = λ k s. unchanged s;
  same-finalize = unchanged;
  same-step_endpoint_id = λ u s. unchanged s;
  endpoint_id-row = λ u s v h. step_of_row (find u s.working.ids) v h;
  endpoint_id-done = λ u s h. step_of_done (find u s.working.ids) h;
  same-step_next = unchanged;
  next-row = λ s t h. step_next_of_row s.working.next t h;
  next-done = λ s h. step_next_of_done s.working.next h;
  disk-step_upsert = λ t s h. refl;
  transaction-step_upsert = λ t s. refl;
  seen-step_upsert = λ t s. refl;
  disk-step_insert = λ u n s h. inserted_disk u n s;
  transaction-step_insert = inserted_active;
  seen-step_insert = inserted_seen;
  primary_key = insertable_absent;
  unique_id = insertable_unused;
}

insertable_free :
    (u : Text) (n : ℕ) (s : Db)
    → find u s.working.ids ≡ none
    → ((v : Text) → find v s.working.ids ≢ some (pos n))
    → insertable u n s ≡ true
insertable_free u n s h k = rw (h, taken_holder n s.working.ids s.working.ids k) refl

pub demo_sqlite-IsReliable : IsReliable
demo_sqlite-IsReliable = record {
  opens = λ p s. refl;
  execs = λ k s. refl;
  prepares = λ k s. refl;
  finds = λ u s. refl;
  reads = λ s. refl;
  upserts = λ t s. refl;
  inserts = insertable_free;
}
