-- ===== src/Bridge/Access.antt =====
-- The attribute callbacks of the Matter stack, `emberAfExternalAttributeReadCallback` and
-- `emberAfExternalAttributeWriteCallback` of matter-bridge-app/main.cpp, taken together.
use wemo_matter_bridge.Prelude.{
  ℕ, ◌<◌, ◌≡◌, refl, ap, ◌∙◌, map, ◌++◌, Bool, true, not, List, [], ◌∷◌, some, ◌==◌, ==_iff, lt→ltb,
  get_elem?, Option-cases, inl, inr,
}
use wemo_matter_bridge.Device.Class.{Sdk}
use wemo_matter_bridge.Device.Light.{Light, is_on, is_reachable, dimmable_light}
use wemo_matter_bridge.Device.Light
use wemo_matter_bridge.Device.Setters.{is_on-set_on_off}
use wemo_matter_bridge.Bridge.State.{Bridge, find_udn, reported, store}
use wemo_matter_bridge.Bridge.Write.{
  success, on_off_path, OnOffAttribute, k_dynamic_endpoint_count, dispatch_on_off,
  handle_write_on_off_attribute, external_attribute_write,
}
use wemo_matter_bridge.Bridge.Read.{external_attribute_read, flag_byte}

module _ ⦃c : Sdk⦄ where
  -- A dispatch of a command leaves the objects and the endpoint tables alone.
  dispatch_on_off_keeps :
      (dev : ℕ) (b : Bool) (now : ℕ) (s : Bridge)
      → ((dispatch_on_off dev b now s).heap ≡ s.heap)
        × ((dispatch_on_off dev b now s).devices ≡ s.devices)
        × ((dispatch_on_off dev b now s).endpoints ≡ s.endpoints)
  unfolding dispatch_on_off
  dispatch_on_off_keeps dev b now s = elim (Option-cases (find_udn dev s.device_to_udn)) [
    | inl q ↦ rw (q, dispatch_on_off) (refl, refl, refl)
    | inr (udn, q) ↦ rw (q, dispatch_on_off) (refl, refl, refl)
  ]

  -- What the slot of an endpoint holds.
  pub record Occupied (endpoint dev : ℕ) (s : Bridge) (l : Light) : Type 0 where
    pub inside : c.dynamic_index s.endpoints endpoint < k_dynamic_endpoint_count
    pub slot : get_elem? s.devices (c.dynamic_index s.endpoints endpoint) ≡ some (some dev)
    pub object : s.heap dev ≡ some l

  read_on_off :
      (endpoint dev : ℕ) (s : Bridge) (l : Light)
      → Occupied endpoint dev s l
      → external_attribute_read endpoint (on_off_path OnOffAttribute.on_off) 1 s
        ≡ some (success, flag_byte (is_on l) ∷ [])
  unfolding external_attribute_read
  read_on_off endpoint dev s l h =
      rw (lt→ltb _ _ h.inside, external_attribute_read)
        (rw (h.slot, external_attribute_read) (rw (h.object, external_attribute_read) refl))

  on_off_written : ℕ → ℕ → ℕ → Bridge → Light → Bridge
  on_off_written dev byte now s l =
      let (l', reports) = Light.set_on_off (not (byte == 0)) l in
      dispatch_on_off dev (not (byte == 0)) now (record s {
        heap = store s.heap dev (some l');
        effects = s.effects ++ map reported reports;
      })

  write_on_off :
      (endpoint dev byte now later : ℕ) (rest : List ℕ) (s : Bridge) (l : Light)
      → Occupied endpoint dev s l
      → is_reachable l ≡ true
      → external_attribute_write endpoint
          (on_off_path OnOffAttribute.on_off)
          (byte ∷ rest)
          now
          later
          s
        ≡ some (success, on_off_written dev byte now s l)
  unfolding external_attribute_write handle_write_on_off_attribute on_off_written
  write_on_off endpoint dev byte now later rest s l h up =
      rw (lt→ltb _ _ h.inside, external_attribute_write)
        (rw (h.slot, external_attribute_write)
          (rw (h.object, external_attribute_write)
            (rw (up, external_attribute_write)
              (rw (h.object, handle_write_on_off_attribute) (rw up refl)))))

  on_off_written-Occupied :
      (endpoint dev byte now : ℕ) (s : Bridge) (l : Light)
      → Occupied endpoint dev s l
      → Occupied endpoint dev
          (on_off_written dev byte now s l)
          (Light.set_on_off (not (byte == 0)) l).0
  unfolding on_off_written
  on_off_written-Occupied endpoint dev byte now s l h =
      let keeps = dispatch_on_off_keeps dev (not (byte == 0)) now (record s {
        heap = store s.heap dev (some (Light.set_on_off (not (byte == 0)) l).0);
        effects = s.effects ++ map reported (Light.set_on_off (not (byte == 0)) l).1;
      }) in
      record {
        inside = rw keeps.2 h.inside;
        slot = rw (keeps.1, keeps.2) h.slot;
        object = rw keeps.0 (rw ((==_iff dev dev).1 refl) refl);
      }

  -- A one-byte read of the on/off attribute after an on/off write to a reachable light at the same
  -- endpoint succeeds with 1 if the written byte was not 0, and with 0 if it was.
  pub read_after_on_off_write :
      (endpoint dev byte now later : ℕ) (rest : List ℕ) (s : Bridge) {l : Light}
      → c.dynamic_index s.endpoints endpoint < k_dynamic_endpoint_count
      → get_elem? s.devices (c.dynamic_index s.endpoints endpoint) ≡ some (some dev)
      → s.heap dev ≡ some l
      → is_reachable l ≡ true
      → (s' : Bridge) × (external_attribute_write endpoint
            (on_off_path OnOffAttribute.on_off)
            (byte ∷ rest)
            now
            later
            s
          ≡ some (success, s'))
        × (external_attribute_read endpoint (on_off_path OnOffAttribute.on_off) 1 s'
            ≡ some (success, flag_byte (not (byte == 0)) ∷ []))
  read_after_on_off_write endpoint dev byte now later rest s {l} inside slot object up =
      let h : Occupied endpoint dev s l = record {
        inside = inside;
        slot = slot;
        object = object;
      } in
      (
        on_off_written dev byte now s l,
        write_on_off endpoint dev byte now later rest s l h up,
        read_on_off endpoint dev _ _ (on_off_written-Occupied endpoint dev byte now s l h)
            ∙ ap (λ b. some (success, flag_byte b ∷ [])) (is_on-set_on_off (not (byte == 0)) l),
      )
