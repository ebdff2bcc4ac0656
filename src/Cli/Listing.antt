-- ===== src/Cli/Listing.antt =====
-- The `list` command of src/main.cpp and the endpoint registry.
use mathlib.Core.Path.{subst}
use mathlib.Core.List.{append-nil, append_assoc, map-append}
use wemo_matter_bridge.Prelude.{
  as_uint16, ℕ, suc, ◌+◌, ◌≤◌, ◌<◌, ◌≡◌, ◌≢◌, refl, sym, ap, ◌∙◌, ℤ, pos, List, [], ◌∷◌, ◌++◌, map,
  Option, none, some, arith, All, All-append, All-imp, length, c_str, text_eq_refl,
}
use wemo_matter_bridge.Adapter.Types.{WemoDevice}
use wemo_matter_bridge.Adapter.Engine.{Engine}
use wemo_matter_bridge.Adapter.OpenWemo.{Adapter, discover}
use wemo_matter_bridge.Registry.Sqlite.{Sqlite, Tables}
use wemo_matter_bridge.Registry.EndpointRegistry.{answered, id_of, lookup, get_or_assign}
use wemo_matter_bridge.Registry.Atomic.{get_or_assign-Outcome}
use wemo_matter_bridge.Registry.Persist.{Extends, Outcome-Grown}
use wemo_matter_bridge.Registry.Reliable.{step_of, Counted, IsReliable}
use wemo_matter_bridge.Registry.Refines.{
  answer_for, assigned-Counted, get_or_assign_refines, lookup_finds,
}
use wemo_matter_bridge.Cli.{Run, k_registry_path, list_devices, list_command}

-- The device of a printed row.
abbrev pub device_of : WemoDevice × Option ℕ → WemoDevice
device_of row = row.0

-- A printed row: the device has the id that is printed, and one is.
abbrev Holds : Tables → WemoDevice × Option ℕ → Type 0
Holds t (d, id) = (v : ℤ) × (t.endpoint_map (c_str d.udn) ≡ some v) × (id ≡ some (as_uint16 v))

Holds-Extends :
    (t t' : Tables) → Extends t t' → (row : WemoDevice × Option ℕ) → Holds t row → Holds t' row
Holds-Extends t t' grown (d, id) (v, e, same) = (v, grown (c_str d.udn) v e, same)

-- What one answer of the abstract registry leaves.
answer_for_keeps :
    (n : ℕ) (d : WemoDevice) (t : Tables) (o : Option ℤ)
    → suc n < 65536
    → Counted n t
    → t.endpoint_map (c_str d.udn) ≡ o
    → (m : ℕ) × (m ≤ suc n)
      × Counted m (answer_for n (c_str d.udn) t o).1
      × ((id : ℕ) × ((answer_for n (c_str d.udn) t o).0 ≡ answered (some id))
          × Holds (answer_for n (c_str d.udn) t o).1 (d, some id))
answer_for_keeps n d t (some v) room w e = (n, omega arith, w, (as_uint16 v, refl, (v, e, refl)))
answer_for_keeps n d t none room w e = (
  suc n,
  omega arith,
  assigned-Counted n (c_str d.udn) t w room,
  (n, refl, (pos n, rw (text_eq_refl (c_str d.udn)) refl, ap some (omega arith))),
)

module _ ⦃q : Sqlite⦄ (r : IsReliable) where
  -- A finished listing whose rows hold.
  abbrev Listed : List WemoDevice → Run q.State → Type 0
  Listed ds run =
      (run.exit_code ≡ some 0)
      × (map device_of run.listed ≡ ds)
      × All (Holds (q.disk run.database)) run.listed

  list_devices-Listed :
      (n : ℕ) (s : Adapter) (ds : List WemoDevice) (rows : List (WemoDevice × Option ℕ))
      (db : q.State)
      → n + length ds < 65536
      → Counted n (q.disk db)
      → All (Holds (q.disk db)) rows
      → Listed (map device_of rows ++ ds) (list_devices s ds rows db)
  unfolding list_devices
  list_devices-Listed n s [] rows db room w h = (refl, sym (append-nil (map device_of rows)), h)
  list_devices-Listed n s (d ∷ ds) rows db room w h =
      let (ans, left) = get_or_assign_refines r n k_registry_path d.udn db w in
      let (m, le, counted, (id, is_id, holds)) =
        answer_for_keeps n d (q.disk db) ((q.disk db).endpoint_map (c_str d.udn)) (omega arith) w
          refl in
      let row : WemoDevice × Option ℕ = (d, some id) in
      let grown =
        (Outcome-Grown (q.disk db) (c_str d.udn) _ db'
          (get_or_assign-Outcome k_registry_path d.udn db)).0 in
      let order : map device_of (rows ++ row ∷ []) ++ ds ≡ map device_of rows ++ d ∷ ds =
        ap (λ xs. xs ++ ds) (map-append device_of rows (row ∷ []))
        ∙ append_assoc (map device_of rows) (d ∷ []) ds in
      subst (λ k. Listed k (list_devices s (d ∷ ds) rows db)) order
        (rw (ans ∙ is_id, list_devices)
          (list_devices-Listed m s ds (rows ++ row ∷ []) db' (omega arith) (rw left counted) (
            All-append (Holds (q.disk db')) rows row
              (All-imp rows (Holds-Extends (q.disk db) (q.disk db') grown) h) (rw left holds))))
    where
      db' : q.State
      db' = (get_or_assign k_registry_path d.udn db).1

  -- On a database whose operations succeed, let the counter stand at `n`, as its decimal text or, with
  -- no counter and `n` being 2, as the default, let every stored id be a number below `n`, and let
  -- there be room below 65536 for one new id for each discovered device. Then `list` exits with 0 and
  -- prints the discovered devices, in their order, each with an id, and afterwards a `Lookup` of each
  -- printed device answers the id that was printed with it.
  pub list_command-lookup :
      (g : Engine) (n : ℕ) (s : Adapter) (db : q.State)
      → n + length (discover g s).0 < 65536
      → Counted n (q.disk db)
      → let run = list_command g s db in
        (run.exit_code ≡ some 0)
        × (map device_of run.listed ≡ (discover g s).0)
        × All
            (λ row. (row.1 ≢ none) × ((lookup k_registry_path row.0.udn run.database).0 ≡ row.1))
            run.listed
  unfolding list_command
  list_command-lookup g n s db room w =
      let (exits, rows, held) =
        list_devices-Listed n (discover g s).1 (discover g s).0 [] db room w tt in
      (exits, rows, All-imp _ (printed _) held)
    where
      printed :
          (db' : q.State) (row : WemoDevice × Option ℕ)
          → Holds (q.disk db') row
          → (row.1 ≢ none) × ((lookup k_registry_path row.0.udn db').0 ≡ row.1)
      printed db' (d, id) (v, e, same) = (
        λ h. ground arith,
        (lookup_finds r k_registry_path d.udn db').0 ∙ (ap (λ o. id_of (step_of o)) e ∙ sym same),
      )
