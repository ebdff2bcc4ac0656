-- ===== src/Bridge/WellFormed.antt =====
-- The invariant of the bridge's databases: entries, objects, endpoint slots and the udn map agree.
use wemo_matter_bridge.Prelude.{
  ℕ, ◌≤◌, ◌<◌, ◌≡◌, ◌∙◌, Bool, List, map, Option, none, some, ◌==◌, Bool-cases, inl, inr, ==_iff,
  length, All, All-imp, All-update_found, map-update_first, length-update_first, find_first,
  update_first, Distinct,
}
use wemo_matter_bridge.Device.Class.{Sdk}
use wemo_matter_bridge.Device.Light.{Light, is_dimmer}
use wemo_matter_bridge.Bridge.State.{Bridge, BridgedWemoLight, Effect, store, find_udn}
use wemo_matter_bridge.Bridge.Event.Body.{SameIdentity}
use wemo_matter_bridge.Bridge.Write.{k_dynamic_endpoint_count}

abbrev pub device_of : BridgedWemoLight → ℕ
device_of e = e.device

module _ ⦃c : Sdk⦄ where
  -- The object of an entry is there, and is a dimmer exactly if the entry says so.
  abbrev pub Fits : Option Light → Bool → Type 0
  Fits none b = ⊥
  Fits (some l) b = is_dimmer l ≡ b

  abbrev pub EntryOk : Bridge → BridgedWemoLight → Type 0
  EntryOk s e =
      Fits (s.heap e.device) e.is_dimmable
      × (e.device < s.next_address)
      × (find_udn e.device s.device_to_udn ≡ some e.udn)

  abbrev pub Live : Option Light → Type 0
  Live none = ⊥
  Live (some l) = Unit

  abbrev pub SlotOk : Bridge → Option ℕ → Type 0
  SlotOk s none = Unit
  SlotOk s (some d) = Live (s.heap d) × (d < s.next_address)

  pub record IsWellFormed (s : Bridge) : Type 0 where
    pub entries : All (EntryOk s) s.lights
    pub distinct : Distinct (map device_of s.lights)
    pub slots : All (SlotOk s) s.devices
    pub capacity : length s.lights ≤ k_dynamic_endpoint_count
    pub size : length s.devices ≡ 17

  -- A write through a live pointer keeps every pointer live and every kind of light.
  Fits-store :
      (h : ℕ → Option Light) (a : ℕ) (l l' : Light)
      → h a ≡ some l
      → is_dimmer l' ≡ is_dimmer l
      → (d : ℕ) (b : Bool) → Fits (h d) b
      → Fits (store h a (some l') d) b
  Fits-store h a l l' p q d b f = elim (Bool-cases (d == a)) [
    | inl e ↦ let e' : d ≡ a = (==_iff d a).0 e in rw e (q ∙ (rw (e', p) at f))
    | inr e ↦ rw e f
  ]

  pub Live-store :
      (h : ℕ → Option Light) (a : ℕ) (l' : Light) (d : ℕ)
      → Live (h d)
      → Live (store h a (some l') d)
  Live-store h a l' d f = elim (Bool-cases (d == a)) [ inl e ↦ rw e tt | inr e ↦ rw e f ]

  pub store-IsWellFormed :
      (s : Bridge) (dev : ℕ) (l l' : Light) (es : List Effect)
      → IsWellFormed s
      → s.heap dev ≡ some l
      → is_dimmer l' ≡ is_dimmer l
      → IsWellFormed (record s { heap = store s.heap dev (some l'); effects = es })
  store-IsWellFormed s dev l l' es w p q = record {
    entries =
        All-imp s.lights
          (λ e h. (Fits-store s.heap dev l l' p q e.device e.is_dimmable h.0, h.1, h.2)) w.entries;
    distinct = w.distinct;
    slots = All-imp s.devices (slot s dev l') w.slots;
    capacity = w.capacity;
    size = w.size;
  }
    where
      slot :
          (s : Bridge) (dev : ℕ) (l' : Light) (o : Option ℕ)
          → SlotOk s o
          → SlotOk (record s { heap = store s.heap dev (some l'); effects = es }) o
      slot s dev l' none h = tt
      slot s dev l' (some d) h = (Live-store s.heap dev l' d h.0, h.1)

  pub lights-IsWellFormed :
      (s : Bridge) (p : BridgedWemoLight → Bool) (f : BridgedWemoLight → BridgedWemoLight)
      (es : List Effect)
      → IsWellFormed s
      → ((e : BridgedWemoLight) → find_first p s.lights ≡ some e → SameIdentity e (f e))
      → IsWellFormed (record s { lights = update_first p f s.lights; effects = es })
  lights-IsWellFormed s p f es w same = record {
    entries =
        All-update_found (EntryOk s) p f s.lights
          (λ e h ok. let i = same e h in rw (i.device, i.is_dimmable, i.udn) ok) w.entries;
    distinct = rw (map-update_first device_of p f s.lights (λ e h. (same e h).device)) w.distinct;
    slots = All-imp s.devices (slot s (update_first p f s.lights) es) w.slots;
    capacity = rw (length-update_first p f s.lights) w.capacity;
    size = w.size;
  }
    where
      slot :
          (s : Bridge) (ls : List BridgedWemoLight) (es : List Effect) (o : Option ℕ)
          → SlotOk s o
          → SlotOk (record s { lights = ls; effects = es }) o
      slot s ls es none h = tt
      slot s ls es (some d) h = h
