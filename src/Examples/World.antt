-- ===== src/Examples/World.antt =====
-- A stand-in for the Matter SDK whose objects are records and whose endpoint table is a list of ids.
use wemo_matter_bridge.Prelude.{
  take, length-take-le, ℕ, ◌≡◌, ◌≢◌, refl, Bool, true, false, not, ◌||◌, List, [], ◌∷◌, arith, ◌==◌,
  if◌then◌else◌, Text,
}
use wemo_matter_bridge.Device.Class.{
  Sdk, Announcement, own_callback, virtual_handler, k_changed_on_off, k_changed_reachable,
  k_changed_name, ChipError, no_error, endpoint_exists,
}

pub record Object : Type 0 where
  pub on : Bool
  pub reachable : Bool
  pub name : Text
  pub unique_id : Text
  pub endpoint : ℕ
  pub version : ℕ

abbrev same : Bool → Bool → Bool
same true b = b
same false b = not b

abbrev elem : ℕ → List ℕ → Bool
elem k [] = false
elem k (x ∷ xs) = (k == x) || elem k xs

abbrev add_id : ℕ → List ℕ → ChipError × List ℕ
add_id e t = if elem e t then (endpoint_exists, t) else (no_error, e ∷ t)

abbrev on_announces : Bool → Object → List Announcement
on_announces b o = if same o.on b then [] else own_callback k_changed_on_off ∷ []

abbrev reachable_announces : Bool → Object → List Announcement
reachable_announces b o =
    if same o.reachable b then [] else virtual_handler k_changed_reachable ∷ []

pub on_changed :
    (b : Bool) (o : Object) → o.on ≢ b → on_announces b o ≡ own_callback k_changed_on_off ∷ []
on_changed b o h = ground arith

pub on_unchanged : (b : Bool) (o : Object) → o.on ≡ b → on_announces b o ≡ []
on_unchanged b o h = ground arith

pub reachable_changed :
    (b : Bool) (o : Object)
    → o.reachable ≢ b
    → reachable_announces b o ≡ virtual_handler k_changed_reachable ∷ []
reachable_changed b o h = ground arith

pub reachable_unchanged : (b : Bool) (o : Object) → o.reachable ≡ b → reachable_announces b o ≡ []
reachable_unchanged b o h = ground arith

pub exists_used : (i e : ℕ) (t : List ℕ) → (add_id e t).0 ≡ endpoint_exists → elem e t ≡ true
exists_used i e t h = ground arith

pub refused_same : (i e : ℕ) (t : List ℕ) → (add_id e t).0 ≢ no_error → (add_id e t).1 ≡ t
refused_same i e t h = ground arith

pub fresh : (i e : ℕ) (t : List ℕ) → (add_id e t).0 ≡ no_error → elem e t ≡ false
fresh i e t h = ground arith

pub used :
    (i e : ℕ) (t : List ℕ) (k : ℕ)
    → (add_id e t).0 ≡ no_error
    → elem k (add_id e t).1 ≡ ((k == e) || elem k t)
used i e t k h = ground arith

instance abbrev pub demo_sdk : Sdk
demo_sdk = record {
  Object = Object;
  make = λ name location. record {
    on = false;
    reachable = true;
    name = name;
    unique_id = [];
    endpoint = 0;
    version = 1;
  };
  is_on = λ o. o.on;
  is_reachable = λ o. o.reachable;
  get_name = λ o. o.name;
  get_unique_id = λ o. o.unique_id;
  get_configuration_version = λ o. o.version;
  get_endpoint_id = λ o. o.endpoint;
  set_on_off = λ b o. record o { on = b };
  set_on_off_announces = on_announces;
  set_reachable = λ b o. record o { reachable = b };
  set_reachable_announces = reachable_announces;
  set_name = λ n o. record o { name = n };
  set_name_announces = λ n o. virtual_handler k_changed_name ∷ [];
  set_endpoint_id = λ e o. record o { endpoint = e };
  set_parent_endpoint_id = λ e o. o;
  generate_unique_id = λ o. record o { unique_id = 1 ∷ [] };
  Endpoints = List ℕ;
  is_used = λ t e. elem e t;
  set_dynamic_endpoint = λ i e t. add_id e t;
  clear_dynamic_endpoint = λ i t. t;
  dynamic_index = λ t e. 0;
  make_zcl_char_string = λ n t. take n t;
  from_zcl_string = λ t. t;
  length-make_zcl_char_string = length-take-le;
  is_on-set_on_off = λ b o. refl;
  is_on-set_reachable = λ b o. refl;
  is_reachable-set_on_off = λ b o. refl;
  is_reachable-set_reachable = λ b o. refl;
  endpoint_id-set_on_off = λ b o. refl;
  endpoint_id-set_reachable = λ b o. refl;
  endpoint_id-set_parent_endpoint_id = λ p o. refl;
  endpoint_id-generate_unique_id = λ o. refl;
  endpoint_id-set_endpoint_id = λ e o. refl;
  set_on_off_changed = on_changed;
  set_on_off_unchanged = on_unchanged;
  set_reachable_changed = reachable_changed;
  set_reachable_unchanged = reachable_unchanged;
  endpoint_exists_used = exists_used;
  refused_unchanged = refused_same;
  accepted_fresh = fresh;
  accepted_used = used;
}
