-- ===== src/Examples/Devices.antt =====
-- The theorems about the endpoint search and the start-up, at a house of two lamps.
use wemo_matter_bridge.Prelude.{
  All, ℕ, ◌-◌, ◌≡◌, inr, refl, pos, true, [], ◌∷◌, Option, none, some, arith, codes,
}
use wemo_matter_bridge.Adapter.Types.{WemoDevice}
use wemo_matter_bridge.Bridge.State.{Bridge}
use wemo_matter_bridge.Bridge.Endpoints.{add_device_endpoint}
use wemo_matter_bridge.Bridge.Startup.{application_init, publish, device_lt}
use wemo_matter_bridge.Bridge.Order.{application_init_order}
use wemo_matter_bridge.Bridge.Sequence.{Published, Sorted, application_init-Sorted}
use mathlib.Core.List.Permᴰ.{swap}
use wemo_matter_bridge.Bridge.Frontier.{application_init_ends}
use wemo_matter_bridge.Bridge.WellFormed.{IsWellFormed}
use wemo_matter_bridge.Bridge.Assign.{add_device_endpoint_terminates}
use wemo_matter_bridge.Examples.World.{demo_sdk}
use wemo_matter_bridge.Examples.Lights.{with_slot}

add_device_endpoint_terminates_example :
    (r : Option ℕ × Bridge) × (add_device_endpoint (65536 - 3) 0 1 (with_slot none) ≡ some r)
add_device_endpoint_terminates_example =
    add_device_endpoint_terminates 0 1 4 (with_slot none) refl (omega arith) (omega arith)
      (omega arith) (omega arith) refl

-- The state that a search leaves behind.
abbrev state_of : Option (Option ℕ × Bridge) → Bridge
state_of none = with_slot none
state_of (some (o, s)) = s

abbrev added : Bridge
added = state_of (add_device_endpoint 5 0 1 (with_slot none))

abbrev pub lamp_device : WemoDevice
lamp_device = record {
  wemo_id = pos 7;
  udn = codes "uuid:1";
  friendly_name = codes "Lamp";
  supports_level = true;
  is_online = true;
  onoff = 1;
  level_percent = 40;
}

application_init_ends_example :
    (s' : Bridge) × (application_init 2 3 (lamp_device ∷ []) (with_slot none) ≡ some s')
    × IsWellFormed s'
application_init_ends_example =
    application_init_ends 0 3 (lamp_device ∷ []) (with_slot none) (omega arith)
      (λ k lo hi. ground arith)

abbrev or_slot : Option Bridge → Bridge
or_slot none = with_slot none
or_slot (some s) = s

abbrev fan_device : WemoDevice
fan_device = record lamp_device { udn = codes "uuid:2" }

-- Listed in the other order.
abbrev two_published : Bridge
unfolding application_init
two_published = or_slot (application_init 2 3 (fan_device ∷ lamp_device ∷ []) (with_slot none))

application_init-Sorted_example :
    All (Published (fan_device ∷ lamp_device ∷ [])) two_published.lights
    × Sorted two_published.lights
unfolding two_published application_init publish
application_init-Sorted_example =
    application_init-Sorted 2 3 (fan_device ∷ lamp_device ∷ []) (with_slot none) two_published refl

application_init_order_example :
    application_init 2 3 (fan_device ∷ lamp_device ∷ []) (with_slot none)
    ≡ application_init 2 3 (lamp_device ∷ fan_device ∷ []) (with_slot none)
unfolding device_lt
application_init_order_example =
    application_init_order 2 3 (fan_device ∷ lamp_device ∷ []) (lamp_device ∷ fan_device ∷ [])
      (with_slot none) (swap refl refl) ((inr refl, tt), (tt, tt))
