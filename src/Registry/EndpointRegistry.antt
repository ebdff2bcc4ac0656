-- ===== src/Registry/EndpointRegistry.antt =====
-- The class `EndpointRegistry` and its helpers, in the order of the source. `State` is that of
-- sqlite3 and the file system. The string that an instance holds, its path, is an argument.
use wemo_matter_bridge.Prelude.{
  as_uint16, ℕ, zero, suc, ◌+◌, ◌/◌, ◌%◌, ℤ, pos, negsuc, Bool, true, false, [], ◌∷◌, ◌++◌, Option,
  none, some, ltb, leb, if◌then◌else◌, Text, text_eq, c_str, strtol,
}
use wemo_matter_bridge.Registry.Sqlite.{
  Sqlite, Sql, create_tables, begin_immediate, commit, rollback, select_endpoint_id,
  select_next_endpoint_id, upsert_next, insert_endpoint, opened, failed_with_handle, failed, Step,
  row, done, no_row,
}

abbrev pub k_first_dynamic_endpoint_id : ℕ
k_first_dynamic_endpoint_id = 2

-- `std::to_string` of a number below 10 ^ digits.
unfoldable pub to_string : ℕ → ℕ → Text
to_string zero n = []
to_string (suc digits) n =
    let rest = to_string digits (n / 10) in
    if ltb n 10 then (n + b'0') ∷ [] else rest ++ (n % 10 + b'0') ∷ []

abbrev pub in_int : ℤ → Option ℤ
in_int (pos n) = if leb n 2147483647 then some (pos n) else none
in_int (negsuc n) = if leb n 2147483647 then some (negsuc n) else none

-- `std::stoi`; `none` is the exception that it throws.
unfoldable pub stoi : Text → Option ℤ
unfolding strtol
stoi t = let (v, rest) = strtol t in if text_eq rest t then none else in_int v

-- What `GetOrAssign` does: an exception that leaves it, or its result.
pub data Answer : Type 0 where
  raised : Answer
  answered : Option ℕ → Answer

module _ ⦃q : Sqlite⦄ where
  open q use {State}

  -- An action of the database, its sequence, and the branch on one that reports success.
  abbrev pub Action : Type 0 → Type 0
  Action A = State → A × State

  abbrev pub pure : {A : Type 0} → A → Action A
  pure a s = (a, s)

  infixl 5 ◌>>=◌ ◌>>◌
  abbrev pub ◌>>=◌ : {A B : Type 0} → Action A → (A → Action B) → Action B
  ◌>>=◌ m f s = f (m s).0 (m s).1

  abbrev pub ◌>>◌ : {B : Type 0} → (State → State) → Action B → Action B
  ◌>>◌ m k s = k (m s)

  abbrev pub branch : {A : Type 0} → Action Bool → Action A → Action A → Action A
  branch test yes_ no_ s = let (ok, s') = test s in if ok then yes_ s' else no_ s'

  abbrev pub id_of : Step ℤ → Option ℕ
  id_of (row v) = some (as_uint16 v)
  id_of done = none
  id_of no_row = none

  -- `sqlite3_column_int` gives the low 32 bits of the stored integer, which has the same low 16 bits.
  unfoldable pub query_endpoint_id : Text → Action (Option ℕ)
  query_endpoint_id udn =
      branch (q.prepare select_endpoint_id)
        (do r ← q.step_endpoint_id (c_str udn); q.finalize; pure (id_of r)) (pure none)

  -- The value of the row; `none` is the exception of `stoi`, which skips the `sqlite3_finalize`.
  unfoldable pub next_of : Step (Option Text) → Action (Option ℕ)
  unfolding stoi
  next_of (row (some value)) = elim (stoi value) [
    | none ↦ pure none
    | some v ↦ do q.finalize; pure (some (as_uint16 v))
  ]
  next_of (row none) = do q.finalize; pure (some k_first_dynamic_endpoint_id)
  next_of done = do q.finalize; pure (some k_first_dynamic_endpoint_id)
  next_of no_row = do q.finalize; pure (some k_first_dynamic_endpoint_id)

  unfoldable pub query_next_endpoint_id : Action (Option ℕ)
  unfolding next_of
  query_next_endpoint_id =
      branch (q.prepare select_next_endpoint_id) (do r ← q.step_next; next_of r)
        (pure (some k_first_dynamic_endpoint_id))

  unfoldable pub upsert_next_endpoint_id : ℕ → Action Bool
  unfolding to_string
  upsert_next_endpoint_id next_id =
      branch (q.prepare upsert_next)
        (do ok ← q.step_upsert (to_string 5 next_id); q.finalize; pure ok) (pure false)

  unfoldable pub insert_mapping : Text → ℕ → Action Bool
  insert_mapping udn id =
      branch (q.prepare insert_endpoint) (do ok ← q.step_insert (c_str udn) id; q.finalize; pure ok)
        (pure false)

  -- The database opened, its directory made if there is one; false after a failure, which closes
  -- the handle that it leaves.
  unfoldable pub connect : Text → Action Bool
  connect path s =
      let s₁ = if q.has_parent_path path then q.create_directories path s else s in
      let (r, s₂) = q.open_db path s₁ in
      elim r [
        | opened ↦ (true, s₂)
        | failed_with_handle ↦ (false, q.close_db s₂)
        | failed ↦ (false, s₂)
      ]

  unfoldable pub lookup : Text → Text → Action (Option ℕ)
  unfolding connect query_endpoint_id
  lookup path udn =
      branch (connect path)
        (branch (q.exec create_tables) (do id ← query_endpoint_id udn; q.close_db; pure id)
          (do q.close_db; pure none))
        (pure none)

  abbrev pub and_then : Action Bool → Action Bool → Action Bool
  and_then m k = branch m k (pure false)

  abbrev run : Sql → State → State
  run sql s = (q.exec sql s).1

  -- The mapping and the counter, or neither, with the end of the transaction.
  unfoldable pub store_mapping : Text → ℕ → Action Answer
  unfolding insert_mapping upsert_next_endpoint_id
  store_mapping udn id =
      branch (and_then (insert_mapping udn id) (upsert_next_endpoint_id ((id + 1) % 65536)))
        (do run commit; q.close_db; pure (answered (some id)))
        (do run rollback; q.close_db; pure (answered none))

  -- An exception of `stoi` leaves the function with the transaction and the database open.
  unfoldable pub assign : Text → Option ℕ → Action Answer
  unfolding store_mapping
  assign udn none = pure raised
  assign udn (some id) = store_mapping udn id

  abbrev pub begin_assignment : Action Bool
  begin_assignment = and_then (q.exec create_tables) (q.exec begin_immediate)

  -- `if (existing.has_value())`, and what follows it.
  unfoldable pub resolve : Text → Option ℕ → Action Answer
  unfolding query_next_endpoint_id assign
  resolve udn (some id) = do run commit; q.close_db; pure (answered (some id))
  resolve udn none = do next ← query_next_endpoint_id; assign udn next

  unfoldable pub get_or_assign : Text → Text → Action Answer
  unfolding connect query_endpoint_id resolve
  get_or_assign path udn =
      branch (connect path)
        (branch begin_assignment (do existing ← query_endpoint_id udn; resolve udn existing)
          (do q.close_db; pure (answered none)))
        (pure (answered none))
