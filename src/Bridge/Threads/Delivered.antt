-- ===== src/Bridge/Threads/Delivered.antt =====
-- Every thread that a write handler of matter-bridge-app/main.cpp starts delivers its command.
use mathlib.Core.List.{Perm, append_assoc, append-nil}
use mathlib.Core.List.Perm
use mathlib.Core.Path.{subst}
use wemo_matter_bridge.Prelude.{
  ℕ, suc, ◌+◌, ◌≡◌, ◌≢◌, refl, sym, ap, ◌∙◌, inl, inr, ℤ, true, List, [], ◌∷◌, ◌++◌, map, Option,
  none, some, arith, Option-cases, All, Text, clamp_at, length,
}
use wemo_matter_bridge.Adapter.Engine.{Engine, EngineCall, we_set_action}
use wemo_matter_bridge.Adapter.OpenWemo.{Adapter, call, find_id}
use wemo_matter_bridge.Adapter.Cache.{command_cached, on_state, level_state}
use wemo_matter_bridge.Bridge.State.{Command, set_on_off, set_level_percent}
use wemo_matter_bridge.Bridge.Threads.{System, run_command, runs, Runs, stop, go_on}

-- The call of the engine that delivers a command to the id of its udn.
abbrev pub call_of : List (Text × ℤ) → Command → Option EngineCall
call_of ids (set_on_off udn on) = elim (find_id udn ids) [
  | none ↦ none
  | some id ↦ some (we_set_action id (on_state on))
]
call_of ids (set_level_percent udn percent) = elim (find_id udn ids) [
  | none ↦ none
  | some id ↦ some (we_set_action id (level_state (clamp_at 100 percent)))
]

module _ (g : Engine) where
  pub run_cached :
      (k : Command) (a : Adapter)
      → a.initialized ≡ true
      → call_of a.udn_to_wemo_id k ≢ none
      → (w : EngineCall) × (call_of a.udn_to_wemo_id k ≡ some w) × (run_command g k a ≡ call w a)
  unfolding run_command
  run_cached (set_on_off udn on) a ready known =
      elim (Option-cases (find_id udn a.udn_to_wemo_id)) [
        | inl e ↦ absurd (known (rw (e, call_of) refl))
        | inr (id, e) ↦ (
          we_set_action id (on_state on),
          rw (e, call_of) refl,
          ap (λ r. r.1) (command_cached g udn on 0 a ready e).0,
        )
      ]
  run_cached (set_level_percent udn percent) a ready known =
      elim (Option-cases (find_id udn a.udn_to_wemo_id)) [
        | inl e ↦ absurd (known (rw (e, call_of) refl))
        | inr (id, e) ↦ (
          we_set_action id (level_state (clamp_at 100 percent)),
          rw (e, call_of) refl,
          ap (λ r. r.1) (command_cached g udn true percent a ready e).1,
        )
      ]

  map_middle :
      (f : Command → Option EngineCall) (before : List Command) (k : Command) (after : List Command)
      → Perm (f k ∷ map f (before ++ after)) (map f (before ++ k ∷ after))
  map_middle f [] k after = Perm.refl _
  map_middle f (b ∷ bs) k after =
      Perm.trans (Perm.swap (f b) (f k) (map f (bs ++ after)))
        (Perm.cons (f b) (map_middle f bs k after))

  length_middle :
      (before : List Command) (k : Command) (after : List Command)
      → length (before ++ k ∷ after) ≡ suc (length (before ++ after))
  length_middle [] k after = refl
  length_middle (b ∷ bs) k after = ap suc (length_middle bs k after)

  All-middle :
      (P : Command → Type 0) (before : List Command) (k : Command) (after : List Command)
      → All P (before ++ k ∷ after)
      → P k × All P (before ++ after)
  All-middle P [] k after h = h
  All-middle P (b ∷ bs) k after h = let (p, rest) = All-middle P bs k after h.1 in (p, (h.0, rest))

  -- The engine is ready, and every pending command is for a udn in the cache.
  pub record IsReady (s : System) : Type 0 where
    pub initialized : s.adapter.initialized ≡ true
    pub known : All (λ k. call_of s.adapter.udn_to_wemo_id k ≢ none) s.pending

  -- The calls made on the way from one state to another, and those that are still to be made, are
  -- those of the pending commands.
  pub record Progress (n : ℕ) (s t : System) : Type 0 where
    pub sent : List EngineCall
    pub calls : t.adapter.calls ≡ s.adapter.calls ++ sent
    pub same_calls :
        Perm
          (map some sent ++ map (call_of s.adapter.udn_to_wemo_id) t.pending)
          (map (call_of s.adapter.udn_to_wemo_id) s.pending)
    pub count : n + length t.pending ≡ length s.pending

  run_first :
      {n : ℕ} {t : System} (before : List Command) (k : Command) (after : List Command)
      (a : Adapter) {w : EngineCall}
      → call_of a.udn_to_wemo_id k ≡ some w
      → Progress n (record { pending = before ++ after; adapter = call w a }) t
      → Progress (suc n) (record { pending = before ++ k ∷ after; adapter = a }) t
  run_first {n} {t} before k after a {w} e p =
      let f = call_of a.udn_to_wemo_id in
      let shown : Perm (f k ∷ (map some p.sent ++ map f t.pending)) (map f (before ++ k ∷ after)) =
        Perm.trans (Perm.cons (f k) p.same_calls) (map_middle f before k after) in
      record {
        sent = w ∷ p.sent;
        calls = p.calls ∙ append_assoc a.calls (w ∷ []) p.sent;
        same_calls =
            subst
              (λ o. Perm (o ∷ (map some p.sent ++ map f t.pending)) (map f (before ++ k ∷ after))) e
              shown;
        count = omega (arith, p.count, length_middle before k after);
      }

  Runs-Progress : {n : ℕ} {s t : System} → Runs g n s t → IsReady s → Progress n s t
  Runs-Progress {s = s} stop w = record {
    sent = [];
    calls = sym (append-nil _);
    same_calls = Perm.refl _;
    count = omega arith;
  }
  Runs-Progress {n = suc n} {s = s} {t = t} (go_on (runs before k after e f) rest) w =
      let (p, others) = All-middle _ before k after (rw e at w.known) in
      let (c, is_call, ran) = run_cached k s.adapter w.initialized p in
      rw (← e) at (
        run_first before k after s.adapter is_call (
          Runs-Progress {n = n} {t = t} (rw (f, ran) at rest)
            (record { initialized = w.initialized; known = others })))

  run_all :
      (p : List Command) (a : Adapter)
      → (u : System) × Runs g (length p) (record { pending = p; adapter = a }) u × (u.pending ≡ [])
  run_all [] a = (record { pending = []; adapter = a }, stop, refl)
  run_all (k ∷ ks) a =
      let (u, rest, e) = run_all ks (run_command g k a) in
      (u, go_on (runs [] k ks refl refl) rest, e)

  -- With a ready engine and every pending command for a udn in the cache, whatever threads have run
  -- so far in whatever order: each has made one call of the engine, these calls and those of the
  -- commands that are still pending are, up to their order, the calls of all the commands, and the
  -- threads left can run until none is pending, in as many steps as there are commands.
  pub threads_deliver :
      {n : ℕ} {s t : System}
      → IsReady s
      → Runs g n s t
      → Progress n s t × ((u : System) × Runs g (length t.pending) t u × (u.pending ≡ []))
  threads_deliver {t = t} w r = (Runs-Progress r w, run_all t.pending t.adapter)
