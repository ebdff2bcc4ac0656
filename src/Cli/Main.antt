-- ===== src/Cli/Main.antt =====
-- What the `set-level` command of src/main.cpp does, from its argument to the call of the engine.
use wemo_matter_bridge.Prelude.{
  ℕ, ◌%◌, ◌≡◌, refl, ap, inl, inr, ℤ, true, ◌&&◌, List, [], ◌∷◌, ◌++◌, map, none, some, arith, leb,
  if◌then◌else◌, Bool-cases, All, Text, codes, clamp_at,
}
use wemo_matter_bridge.Adapter.Engine.{Engine, WeDeviceInfo, we_set_action}
use wemo_matter_bridge.Adapter.OpenWemo.{
  Adapter, find_id, nonzero, to_device, ensure_engine_initialized, list_after_discover,
}
use wemo_matter_bridge.Adapter.Cache.{last_id, level_state}
use wemo_matter_bridge.Adapter.Miss.{looked_up, command_refreshed}
use wemo_matter_bridge.Registry.Sqlite.{Sqlite}
use wemo_matter_bridge.Cli.{set_command, main}
use wemo_matter_bridge.Prelude.Digits.{IsDigit, decimal}
use wemo_matter_bridge.Cli.Percent.{parse_percent_lem}

percent-mod : (n : ℕ) → leb n 100 ≡ true → n % 256 ≡ n
percent-mod n h = ground arith

percent-clamp : (n : ℕ) → leb n 100 ≡ true → clamp_at 100 n ≡ n
percent-clamp n h = ground arith

module _ ⦃q : Sqlite⦄ (g : Engine) where
  -- The command `set-level` with a udn and a number of one digit or more, for an adapter whose
  -- engine gets ready and that has to look the udn up: a number above 100 exits with 1 and does not
  -- touch the adapter. A number of at most 100 is sent as it is, to the id of the last listed device
  -- with the udn, and the exit code is 0 exactly if the engine answers other than 0.
  pub main-set_level :
      (udn : Text) (b : ℕ) (t : Text) (s : Adapter) (db : q.State) {s₁ : Adapter}
      {items : List WeDeviceInfo} {id : ℤ}
      → IsDigit b
      → All IsDigit t
      → ensure_engine_initialized g s ≡ (true, s₁)
      → find_id udn s₁.udn_to_wemo_id ≡ none
      → (list_after_discover g s₁).0 ≡ some items
      → last_id udn (map to_device items) ≡ some id
      → let n = decimal 0 (b ∷ t) in
        let answer = nonzero (g.set_action (looked_up s₁.calls) id (level_state n)) in
        let r = main g (codes "set-level" ∷ udn ∷ (b ∷ t) ∷ []) s db in
        (r.exit_code ≡ some (if leb n 100 && answer then 0 else 1))
        × (r.adapter.calls ≡ (
            if leb n 100
            then looked_up s₁.calls ++ we_set_action id (level_state n) ∷ []
            else s.calls))
  unfolding main set_command
  main-set_level udn b t s db h k ready miss listed found =
      let n = decimal 0 (b ∷ t) in
      let parsed = parse_percent_lem b t h k in
      elim (Bool-cases (leb n 100)) [
        | inl small ↦
            let (_, _, result, calls) = command_refreshed g udn true n s ready miss listed found in
            rw (parsed, small, set_command)
              (rw (percent-mod n small, percent-clamp n small)
                (
                  ap (λ ok. some (if ok then 0 else 1)) (rw (percent-clamp n small) at result),
                  rw (percent-clamp n small) at calls,
                ))
        | inr large ↦ rw (parsed, large, set_command) (refl, refl)
      ]
