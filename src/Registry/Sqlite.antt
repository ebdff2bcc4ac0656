-- ===== src/Registry/Sqlite.antt =====
-- What src/matter/endpoint_registry.cpp uses of sqlite3 and of the file system, as a parameter.
use mathlib.Core.Option.{Option, none, some}
use wemo_matter_bridge.Prelude.{ℕ, ℤ, pos, ◌≡◌, ◌≢◌, Bool, true, text_eq, if◌then◌else◌, Text}

-- The contents of the two tables: `endpoint_map`, whose `udn` is its primary key, and the value of
-- the row `next_endpoint_id` of `bridge_meta`. A table that does not exist yet counts as empty.
pub record Tables : Type 0 where
  pub endpoint_map : Text → Option ℤ
  pub next_endpoint_id : Option Text

abbrev pub with_mapping : Text → ℕ → Tables → Tables
with_mapping udn id t = record t {
  endpoint_map = λ u. if text_eq udn u then some (pos id) else t.endpoint_map u;
}

abbrev pub with_next : Text → Tables → Tables
with_next value t = record t { next_endpoint_id = some value }

-- The texts that `sqlite3_exec` runs, and those that are prepared.
pub data Sql : Type 0 where
  create_tables begin_immediate commit rollback : Sql

pub data Query : Type 0 where
  select_endpoint_id select_next_endpoint_id upsert_next insert_endpoint : Query

-- `sqlite3_open` that succeeds, that fails and leaves a handle, or that fails without one.
pub data Opened : Type 0 where
  opened failed_with_handle failed : Opened

-- `sqlite3_step` of a SELECT.
pub data Step (A : Type 0) : Type 0 where
  row : A → Step A
  done no_row : Step A

-- What an operation leaves alone: the committed contents, what the connection sees, and whether it
-- is in a transaction.
pub record Same {State : Type 0} (disk seen : State → Tables) (in_transaction : State → Bool)
    (s s' : State) : Type 0 where
  pub disk_same : disk s' ≡ disk s
  pub seen_same : seen s' ≡ seen s
  pub transaction_same : in_transaction s' ≡ in_transaction s

-- Statements are bound and stepped in one operation. Every operation may fail at any time. The laws
-- say what sqlite3 documents: statements of an open transaction reach the committed contents only by
-- a commit that succeeds, and then all of them do; a statement that fails has no effect; a row that
-- is found is in the table, and a SELECT that is done without one says that there is none; an INSERT
-- succeeds only if neither the primary key nor the unique column is taken.
pub record Sqlite : Type 1 where
  pub State : Type 0
  pub disk : State → Tables
  pub seen : State → Tables
  pub in_transaction : State → Bool
  pub has_parent_path : Text → Bool
  pub create_directories : Text → State → State
  pub open_db : Text → State → Opened × State
  pub close_db : State → State
  pub exec : Sql → State → Bool × State
  pub prepare : Query → State → Bool × State
  pub finalize : State → State
  pub step_endpoint_id : Text → State → Step ℤ × State
  pub step_next : State → Step (Option Text) × State
  pub step_upsert : Text → State → Bool × State
  pub step_insert : Text → ℕ → State → Bool × State
  pub disk-create_directories : (p : Text) (s : State) → disk (create_directories p s) ≡ disk s
  pub disk-open_db : (p : Text) (s : State) → disk (open_db p s).1 ≡ disk s
  pub seen-open_db :
      (p : Text) (s : State) → (open_db p s).0 ≡ opened → seen (open_db p s).1 ≡ disk s
  pub disk-close_db : (s : State) → disk (close_db s) ≡ disk s
  pub same-create_tables : (s : State) → Same disk seen in_transaction s (exec create_tables s).1
  pub disk-begin : (s : State) → disk (exec begin_immediate s).1 ≡ disk s
  pub seen-begin : (s : State) → seen (exec begin_immediate s).1 ≡ seen s
  pub transaction-begin :
      (s : State)
      → (exec begin_immediate s).0 ≡ true
      → in_transaction (exec begin_immediate s).1 ≡ true
  pub disk-commit :
      (s : State) → disk (exec commit s).1 ≡ (if (exec commit s).0 then seen s else disk s)
  pub disk-rollback : (s : State) → disk (exec rollback s).1 ≡ disk s
  pub same-prepare : (k : Query) (s : State) → Same disk seen in_transaction s (prepare k s).1
  pub same-finalize : (s : State) → Same disk seen in_transaction s (finalize s)
  pub same-step_endpoint_id :
      (u : Text) (s : State) → Same disk seen in_transaction s (step_endpoint_id u s).1
  pub endpoint_id-row :
      (u : Text) (s : State) (v : ℤ)
      → (step_endpoint_id u s).0 ≡ row v
      → (seen s).endpoint_map u ≡ some v
  pub endpoint_id-done :
      (u : Text) (s : State) → (step_endpoint_id u s).0 ≡ done → (seen s).endpoint_map u ≡ none
  pub same-step_next : (s : State) → Same disk seen in_transaction s (step_next s).1
  pub next-row :
      (s : State) (t : Text) → (step_next s).0 ≡ row (some t) → (seen s).next_endpoint_id ≡ some t
  pub next-done : (s : State) → (step_next s).0 ≡ done → (seen s).next_endpoint_id ≡ none
  pub disk-step_upsert :
      (t : Text) (s : State) → in_transaction s ≡ true → disk (step_upsert t s).1 ≡ disk s
  pub transaction-step_upsert :
      (t : Text) (s : State) → in_transaction (step_upsert t s).1 ≡ in_transaction s
  pub seen-step_upsert :
      (t : Text) (s : State)
      → seen (step_upsert t s).1 ≡ (if (step_upsert t s).0 then with_next t (seen s) else seen s)
  pub disk-step_insert :
      (u : Text) (n : ℕ) (s : State) → in_transaction s ≡ true → disk (step_insert u n s).1 ≡ disk s
  pub transaction-step_insert :
      (u : Text) (n : ℕ) (s : State) → in_transaction (step_insert u n s).1 ≡ in_transaction s
  pub seen-step_insert :
      (u : Text) (n : ℕ) (s : State)
      → seen (step_insert u n s).1
        ≡ (if (step_insert u n s).0 then with_mapping u n (seen s) else seen s)
  pub primary_key :
      (u : Text) (n : ℕ) (s : State) → (step_insert u n s).0 ≡ true → (seen s).endpoint_map u ≡ none
  pub unique_id :
      (u : Text) (n : ℕ) (s : State)
      → (step_insert u n s).0 ≡ true
      → (v : Text) → (seen s).endpoint_map v ≢ some (pos n)
