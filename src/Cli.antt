-- ===== src/Cli.antt =====
-- The command-line tool, src/main.cpp: its arguments, its exit code, what it does to the adapter and
-- the endpoint registry, and what `list` prints of each device. Other messages are left out.
pub mod Percent
pub mod Main
pub mod Listing
use wemo_matter_bridge.Prelude.{
  ℕ, ◌%◌, ℤ, pos, negsuc, Bool, true, false, ◌&&◌, ◌||◌, List, [], ◌∷◌, ◌++◌, Option, none, some,
  leb, if◌then◌else◌, Text, codes, text_eq, is_empty, strtol,
}
use wemo_matter_bridge.Adapter.Types.{WemoDevice}
use wemo_matter_bridge.Adapter.Engine.{Engine}
use wemo_matter_bridge.Registry.Sqlite.{Sqlite}
use wemo_matter_bridge.Registry.EndpointRegistry.{raised, answered, get_or_assign}
use wemo_matter_bridge.Adapter.OpenWemo.{Adapter, discover, set_on_off, set_level_percent}

-- `parsed < 0 || parsed > 100`, with the value that is left.
abbrev pub in_percent : ℤ → Option ℕ
in_percent (pos n) = if leb n 100 then some n else none
in_percent (negsuc n) = none

-- An argument is its bytes up to the NUL, so `*end != '\0'` says that something is left behind the
-- number.
unfoldable pub parse_percent : Text → Option ℕ
unfolding strtol
parse_percent value =
    let (parsed, end) = strtol value in if is_empty end then in_percent parsed else none

module _ (g : Engine) where
  -- The exit code of a command is 1 when the adapter reports a failure.
  abbrev pub exit_with : Bool × Adapter → ℕ × Adapter
  exit_with (ok, s) = (if ok then 0 else 1, s)

  -- A command other than `list`, with the arguments behind it.
  unfoldable pub set_command : Text → List Text → Adapter → ℕ × Adapter
  unfolding parse_percent set_on_off set_level_percent
  set_command cmd [] s = (1, s)
  set_command cmd (udn ∷ []) s =
      if text_eq cmd (codes "set-on") || text_eq cmd (codes "set-off")
      then exit_with (set_on_off g udn (text_eq cmd (codes "set-on")) s)
      else (1, s)
  set_command cmd (udn ∷ level ∷ []) s =
      if text_eq cmd (codes "set-level")
      then (elim (parse_percent level) [
        | none ↦ (1, s)
        | some percent ↦ exit_with (set_level_percent g udn (percent % 256) s)
      ])
      else (1, s)
  set_command cmd (udn ∷ level ∷ more ∷ rest) s = (1, s)

-- What a run of the tool leaves: its exit code, or `none` after an exception that nobody catches, the
-- adapter and the database, and the devices that `list` has printed, each with its endpoint id.
pub record Run (State : Type 0) : Type 0 where
  pub exit_code : Option ℕ
  pub adapter : Adapter
  pub database : State
  pub listed : List (WemoDevice × Option ℕ)

abbrev pub k_registry_path : Text
k_registry_path = codes "./var/endpoint-map.sqlite3"

module _ ⦃q : Sqlite⦄ where
  -- The loop of `list`, after `listed` devices.
  unfoldable pub list_devices :
      Adapter → List WemoDevice → List (WemoDevice × Option ℕ) → q.State → Run q.State
  unfolding get_or_assign
  list_devices s [] listed db = record {
    exit_code = some 0;
    adapter = s;
    database = db;
    listed = listed;
  }
  list_devices s (d ∷ ds) listed db =
      let (answer, db') = get_or_assign k_registry_path d.udn db in
      elim answer [
        | raised ↦ record { exit_code = none; adapter = s; database = db'; listed = listed }
        | answered id ↦ list_devices s ds (listed ++ (d, id) ∷ []) db'
      ]

module _ ⦃q : Sqlite⦄ (g : Engine) where
  unfoldable pub list_command : Adapter → q.State → Run q.State
  unfolding discover list_devices
  list_command s db = let (devices, s') = discover g s in list_devices s' devices [] db

  -- `main`, with the arguments behind the program's name.
  unfoldable pub main : List Text → Adapter → q.State → Run q.State
  unfolding set_command list_command
  main [] s db = list_command s db
  main (cmd ∷ rest) s db =
      let (code, s') = set_command g cmd rest s in
      if text_eq cmd (codes "list")
      then list_command s db
      else record { exit_code = some code; adapter = s'; database = db; listed = [] }
