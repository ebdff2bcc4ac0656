-- ===== src/Device/Class.antt =====
-- The Matter SDK as a parameter, `Sdk`, with the change masks and the reports: the classes `Device`
-- and `DeviceOnOff` of its bridge example, its table of endpoints, and its string encoding.
use wemo_matter_bridge.Prelude.{
  ◌≤◌, length, ℕ, ◌≡◌, ◌≢◌, Bool, true, false, ◌||◌, ◌==◌, List, [], ◌∷◌, Text,
}

-- `Changed_t`: which of the flag bits are set. `k_changed_level` is the bit above the SDK's highest,
-- `k_changed_on_off`, so the flags are independent.
pub record Changed : Type 0 where
  pub reachable : Bool
  pub location : Bool
  pub name : Bool
  pub on_off : Bool
  pub level : Bool

abbrev pub no_change : Changed
no_change = record {
  reachable = false;
  location = false;
  name = false;
  on_off = false;
  level = false;
}

abbrev pub k_changed_reachable : Changed
k_changed_reachable = record no_change { reachable = true }

abbrev pub k_changed_name : Changed
k_changed_name = record no_change { name = true }

abbrev pub k_changed_on_off : Changed
k_changed_on_off = record no_change { on_off = true }

abbrev pub k_changed_level : Changed
k_changed_level = record no_change { level = true }

-- How a setter of the SDK announces a change: `DeviceOnOff` calls its own `mChanged_CB`, `Device`
-- calls the virtual `HandleDeviceChange`.
pub data Announcement : Type 0 where
  own_callback : Changed → Announcement
  virtual_handler : Changed → Announcement

-- The results of `emberAfSetDynamicEndpoint`.
pub data ChipError : Type 0 where
  no_error endpoint_exists other_error : ChipError

-- What the bridge uses of the SDK. `Object` is a `DeviceOnOff` with its accessors, its setters, and
-- what each setter announces; the laws say that a setter sets its own property and leaves the others
-- alone, and that the on/off and reachability setters announce a change exactly when the value
-- changes. `Endpoints` is the endpoint table of the Matter stack; its laws say that an endpoint id
-- is accepted only if it is not in use, that it is in use from then on, and that a call which fails
-- changes nothing; they speak of an index that is not in use, since the bridge sets an endpoint only
-- at the index of a null slot, whose endpoint was cleared or never set. `make_zcl_char_string` writes into the span that it is given, and no further.
pub record Sdk : Type 1 where
  pub Object : Type 0
  pub make : Text → Text → Object
  pub is_on : Object → Bool
  pub is_reachable : Object → Bool
  pub get_name : Object → Text
  pub get_unique_id : Object → Text
  pub get_configuration_version : Object → ℕ
  pub get_endpoint_id : Object → ℕ
  pub set_on_off : Bool → Object → Object
  pub set_on_off_announces : Bool → Object → List Announcement
  pub set_reachable : Bool → Object → Object
  pub set_reachable_announces : Bool → Object → List Announcement
  pub set_name : Text → Object → Object
  pub set_name_announces : Text → Object → List Announcement
  pub set_endpoint_id : ℕ → Object → Object
  pub set_parent_endpoint_id : ℕ → Object → Object
  pub generate_unique_id : Object → Object
  pub Endpoints : Type 0
  pub is_used : Endpoints → ℕ → Bool
  pub set_dynamic_endpoint : ℕ → ℕ → Endpoints → ChipError × Endpoints
  pub clear_dynamic_endpoint : ℕ → Endpoints → Endpoints
  pub dynamic_index : Endpoints → ℕ → ℕ
  pub make_zcl_char_string : ℕ → Text → List ℕ
  pub from_zcl_string : List ℕ → Text
  pub length-make_zcl_char_string : (n : ℕ) (t : Text) → length (make_zcl_char_string n t) ≤ n
  pub is_on-set_on_off : (b : Bool) (o : Object) → is_on (set_on_off b o) ≡ b
  pub is_on-set_reachable : (b : Bool) (o : Object) → is_on (set_reachable b o) ≡ is_on o
  pub is_reachable-set_on_off :
      (b : Bool) (o : Object) → is_reachable (set_on_off b o) ≡ is_reachable o
  pub is_reachable-set_reachable : (b : Bool) (o : Object) → is_reachable (set_reachable b o) ≡ b
  pub endpoint_id-set_on_off :
      (b : Bool) (o : Object) → get_endpoint_id (set_on_off b o) ≡ get_endpoint_id o
  pub endpoint_id-set_reachable :
      (b : Bool) (o : Object) → get_endpoint_id (set_reachable b o) ≡ get_endpoint_id o
  pub endpoint_id-set_parent_endpoint_id :
      (p : ℕ) (o : Object) → get_endpoint_id (set_parent_endpoint_id p o) ≡ get_endpoint_id o
  pub endpoint_id-generate_unique_id :
      (o : Object) → get_endpoint_id (generate_unique_id o) ≡ get_endpoint_id o
  pub endpoint_id-set_endpoint_id : (e : ℕ) (o : Object) → get_endpoint_id (set_endpoint_id e o) ≡ e
  pub set_on_off_changed :
      (b : Bool) (o : Object)
      → is_on o ≢ b
      → set_on_off_announces b o ≡ own_callback k_changed_on_off ∷ []
  pub set_on_off_unchanged : (b : Bool) (o : Object) → is_on o ≡ b → set_on_off_announces b o ≡ []
  pub set_reachable_changed :
      (b : Bool) (o : Object)
      → is_reachable o ≢ b
      → set_reachable_announces b o ≡ virtual_handler k_changed_reachable ∷ []
  pub set_reachable_unchanged :
      (b : Bool) (o : Object) → is_reachable o ≡ b → set_reachable_announces b o ≡ []
  pub endpoint_exists_used :
      (i e : ℕ) (t : Endpoints)
      → (set_dynamic_endpoint i e t).0 ≡ endpoint_exists
      → is_used t e ≡ true
  pub refused_unchanged :
      (i e : ℕ) (t : Endpoints)
      → (set_dynamic_endpoint i e t).0 ≢ no_error
      → (set_dynamic_endpoint i e t).1 ≡ t
  pub accepted_fresh :
      (i e : ℕ) (t : Endpoints) → (set_dynamic_endpoint i e t).0 ≡ no_error → is_used t e ≡ false
  pub accepted_used :
      (i e : ℕ) (t : Endpoints) (k : ℕ)
      → (set_dynamic_endpoint i e t).0 ≡ no_error
      → is_used (set_dynamic_endpoint i e t).1 k ≡ ((k == e) || is_used t k)

-- The attributes that the bridge reports to the Matter stack, each with its cluster.
pub data Reported : Type 0 where
  reachable node_label on_off current_level measured_value : Reported
  bat_charge_level description endpoint_list : Reported

-- `MatterReportingAttributeChangeCallback` for an attribute of an endpoint.
pub record Report : Type 0 where
  pub endpoint : ℕ
  pub attribute : Reported
