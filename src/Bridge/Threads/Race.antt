-- ===== src/Bridge/Threads/Race.antt =====
-- Two writes to one light in matter-bridge-app/main.cpp start two threads, whose order is not theirs.
use wemo_matter_bridge.Prelude.{
  ℕ, ◌≡◌, refl, ap, ◌∙◌, ℤ, Bool, true, not, List, [], ◌∷◌, ◌++◌, map, some, ◌==◌, ==_iff,
  find_first, find_first-update_first, find_first_holds,
}
use mathlib.Core.List.{append-nil}
use wemo_matter_bridge.Device.Class.{Sdk, Report}
use wemo_matter_bridge.Device.Light.{Light, is_on, is_reachable}
use wemo_matter_bridge.Device.Light
use wemo_matter_bridge.Device.Setters.{is_on-set_on_off, is_reachable-set_on_off}
use wemo_matter_bridge.Adapter.Engine.{Engine, we_set_action}
use wemo_matter_bridge.Adapter.OpenWemo.{Adapter, call, find_id}
use wemo_matter_bridge.Adapter.Cache.{command_cached, on_state}
use wemo_matter_bridge.Bridge.State.{
  Bridge, BridgedWemoLight, Command, Effect, reported, started, owns, command_on_off,
}
use wemo_matter_bridge.Bridge.Write.{success, OnOffAttribute, handle_write_on_off_attribute}
use wemo_matter_bridge.Bridge.WellFormed.{IsWellFormed}
use wemo_matter_bridge.Bridge.Settle.{after_write, write_on_off_result, after_write-IsWellFormed}
use wemo_matter_bridge.Bridge.Threads.{
  System, run_command, started_commands, runs, Runs, stop, go_on,
}

started_commands-append :
    (es fs : List Effect) → started_commands (es ++ fs) ≡ started_commands es ++ started_commands fs
started_commands-append [] fs = refl
started_commands-append (reported r ∷ es) fs = started_commands-append es fs
started_commands-append (started k ∷ es) fs = ap (λ ks. k ∷ ks) (started_commands-append es fs)

reports_start_nothing : (rs : List Report) → started_commands (map reported rs) ≡ []
reports_start_nothing [] = refl
reports_start_nothing (r ∷ rs) = reports_start_nothing rs

-- The thread of a write comes behind the threads started before it.
pub started_then :
    (es : List Effect) (rs : List Report) (k : Command)
    → started_commands ((es ++ map reported rs) ++ started k ∷ []) ≡ started_commands es ++ k ∷ []
started_then es rs k =
    started_commands-append (es ++ map reported rs) (started k ∷ [])
    ∙ ap (λ ks. ks ++ k ∷ [])
        (started_commands-append es (map reported rs)
          ∙ rw (reports_start_nothing rs) (append-nil (started_commands es)))

Runs-reverse :
    (g : Engine) (k l : Command) (a : Adapter)
    → Runs g 2
        (record { pending = k ∷ l ∷ []; adapter = a })
        (record { pending = []; adapter = run_command g k (run_command g l a) })
Runs-reverse g k l a = go_on (runs (k ∷ []) l [] refl refl) (go_on (runs [] k [] refl refl) stop)

module _ ⦃c : Sdk⦄ where
  -- Two on/off writes to a reachable light with an entry, one after the other, with a ready engine and
  -- the udn of the entry in the cache, and no command started before: both succeed, and the light shows the second value. The two
  -- threads that they start may run so that the engine is first told the second value and then the
  -- first, and nothing more.
  pub later_write_may_lose :
      (g : Engine) (dev byte₁ now₁ byte₂ now₂ : ℕ) (s : Bridge) (a : Adapter) {l : Light}
      {e : BridgedWemoLight} {id : ℤ}
      → IsWellFormed s
      → find_first (owns dev) s.lights ≡ some e
      → s.heap dev ≡ some l
      → is_reachable l ≡ true
      → started_commands s.effects ≡ []
      → a.initialized ≡ true
      → find_id e.udn a.udn_to_wemo_id ≡ some id
      → (s₁ : Bridge) × (s₂ : Bridge) × (shown : Light) × (t : System)
        × (handle_write_on_off_attribute dev OnOffAttribute.on_off byte₁ now₁ s
            ≡ some (success, s₁))
        × (handle_write_on_off_attribute dev OnOffAttribute.on_off byte₂ now₂ s₁
            ≡ some (success, s₂))
        × (s₂.heap dev ≡ some shown)
        × (is_on shown ≡ not (byte₂ == 0))
        × Runs g 2 (record { pending = started_commands s₂.effects; adapter = a }) t
        × (t.pending ≡ [])
        × (t.adapter.calls
            ≡ (a.calls ++ we_set_action id (on_state (not (byte₂ == 0))) ∷ [])
              ++ we_set_action id (on_state (not (byte₁ == 0))) ∷ [])
  unfolding run_command command_on_off
  later_write_may_lose g dev byte₁ now₁ byte₂ now₂ s a {l} {e} {id} w found object up idle ready
        cached =
      (
        s₁,
        s₂,
        (Light.set_on_off b₂ l₁).0,
        record { pending = []; adapter = run_command g k₁ (run_command g k₂ a) },
        write_on_off_result dev byte₁ now₁ s w found object up,
        write_on_off_result dev byte₂ now₂ s₁ (after_write-IsWellFormed dev b₁ now₁ s e w object)
            found₁ (rw ((==_iff dev dev).1 refl) refl) (is_reachable-set_on_off b₁ l ∙ up),
        rw ((==_iff dev dev).1 refl) refl,
        is_on-set_on_off b₂ l₁,
        rw both (Runs-reverse g k₁ k₂ a),
        refl,
        told,
      )
    where
      b₁ : Bool
      b₁ = not (byte₁ == 0)

      b₂ : Bool
      b₂ = not (byte₂ == 0)

      k₁ : Command
      k₁ = Command.set_on_off e.udn b₁

      k₂ : Command
      k₂ = Command.set_on_off e.udn b₂

      s₁ : Bridge
      s₁ = after_write dev b₁ now₁ s l e

      l₁ : Light
      l₁ = (Light.set_on_off b₁ l).0

      s₂ : Bridge
      s₂ = after_write dev b₂ now₂ s₁ l₁ (command_on_off b₁ now₁ e)

      found₁ : find_first (owns dev) s₁.lights ≡ some (command_on_off b₁ now₁ e)
      found₁ =
          find_first-update_first (owns dev) (command_on_off b₁ now₁) s.lights found
            (find_first_holds (owns dev) s.lights found)

      both : started_commands s₂.effects ≡ k₁ ∷ k₂ ∷ []
      both =
          started_then s₁.effects (Light.set_on_off b₂ l₁).1 k₂
          ∙ ap (λ ks. ks ++ k₂ ∷ [])
              (started_then s.effects (Light.set_on_off b₁ l).1 k₁ ∙ ap (λ ks. ks ++ k₁ ∷ []) idle)

      told :
          (run_command g k₁ (run_command g k₂ a)).calls
          ≡ (a.calls ++ we_set_action id (on_state b₂) ∷ []) ++ we_set_action id (on_state b₁) ∷ []
      told =
          let second : run_command g k₂ a ≡ call (we_set_action id (on_state b₂)) a =
            ap (λ r. r.1) (command_cached g e.udn b₂ 0 a ready cached).0 in
          rw second (
            ap (λ r. r.1.calls)
              (command_cached g e.udn b₁ 0 (call (we_set_action id (on_state b₂)) a) ready
                cached).0)
