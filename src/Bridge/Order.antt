-- ===== src/Bridge/Order.antt =====
-- The order in which `ApplicationInit` of matter-bridge-app/main.cpp publishes the devices.
use mathlib.Core.Path.{subst}
use mathlib.Core.List.Permᴰ
use mathlib.Core.List.Permᴰ.{Permᴰ, nil, cons, swap, trans}
use wemo_matter_bridge.Prelude.{
  ℕ, ◌≡◌, ◌⊎◌, refl, sym, ap, ◌∙◌, inl, inr, true, false, List, [], ◌∷◌, arith, All, All-imp,
  Bool-cases, Text, text_eq, text_eq_refl, text_eq_sound, text_lt, text_lt_irrefl, text_lt_asymm,
  text_lt_trans, text_lt_total,
}
use wemo_matter_bridge.Adapter.Types.{WemoDevice}
use wemo_matter_bridge.Device.Class.{Sdk}
use wemo_matter_bridge.Bridge.State.{Bridge}
use wemo_matter_bridge.Bridge.Startup.{
  device_lt, insert_device, sort_devices, publish_all, reset, application_init,
}

text_eq_sym : (s t : Text) → text_eq s t ≡ text_eq t s
text_eq_sym [] [] = refl
text_eq_sym [] (b ∷ t) = refl
text_eq_sym (a ∷ s) [] = refl
text_eq_sym (a ∷ s) (b ∷ t) = ground (arith, text_eq_sym s t)

device_lt_asymm : (a b : WemoDevice) → device_lt a b ≡ true → device_lt b a ≡ false
unfolding device_lt
device_lt_asymm a b h = ground (
  arith,
  text_eq_sym a.udn b.udn,
  text_lt_asymm a.udn b.udn,
  text_lt_asymm a.friendly_name b.friendly_name,
)

text_eq_left : (s t u : Text) → text_eq s t ≡ true → text_eq s u ≡ text_eq t u
text_eq_left s t u e = ap (λ v. text_eq v u) (text_eq_sound s t e)

text_lt_left : (s t u : Text) → text_eq s t ≡ true → text_lt s u ≡ text_lt t u
text_lt_left s t u e = ap (λ v. text_lt v u) (text_eq_sound s t e)

text_lt_right : (s t u : Text) → text_eq t u ≡ true → text_lt s t ≡ text_lt s u
text_lt_right s t u e = ap (λ v. text_lt s v) (text_eq_sound t u e)

text_lt_differs : (s t : Text) → text_lt s t ≡ true → text_eq s t ≡ false
text_lt_differs s t h = ground (arith, text_lt_left s t t, text_lt_irrefl t)

device_lt_trans :
    (a b d : WemoDevice) → device_lt a b ≡ true → device_lt b d ≡ true → device_lt a d ≡ true
unfolding device_lt
device_lt_trans a b d h k = ground (
  arith,
  text_eq_left a.udn b.udn d.udn,
  text_lt_left a.udn b.udn d.udn,
  text_lt_right a.udn b.udn d.udn,
  text_lt_trans a.udn b.udn d.udn,
  text_lt_differs a.udn d.udn,
  text_lt_trans a.friendly_name b.friendly_name d.friendly_name,
)

-- The comparison puts one of the two devices before the other.
abbrev pub Comparable : WemoDevice → WemoDevice → Type 0
Comparable a b = (device_lt a b ≡ true) ⊎ (device_lt b a ≡ true)

insert_before :
    (a b : WemoDevice) (l : List WemoDevice)
    → device_lt a b ≡ true
    → insert_device a (insert_device b l) ≡ insert_device b (insert_device a l)
unfolding insert_device
insert_before a b [] h = rw (device_lt_asymm a b h, insert_device) (rw (h, insert_device) refl)
insert_before a b (e ∷ l) h = elim (Bool-cases (device_lt e b)) [
  | inl p ↦ elim (Bool-cases (device_lt e a)) [
    | inl q ↦ rw (p, q, insert_device) (rw (p, insert_device) (ap (◌∷◌ e) (insert_before a b l h)))
    | inr q ↦ rw (p, q, insert_device) (rw (h, p, insert_device) refl)
  ]
  | inr p ↦ elim (Bool-cases (device_lt e a)) [
    | inl q ↦ absurd (false-ne-true (sym p ∙ device_lt_trans e a b q h))
    | inr q ↦ rw (p, q, insert_device) (rw (h, device_lt_asymm a b h, p, insert_device) refl)
  ]
]
  where
    false-ne-true : false ≡ true → ⊥
    false-ne-true e = cc

insert_comm :
    (a b : WemoDevice) (l : List WemoDevice)
    → Comparable a b
    → insert_device a (insert_device b l) ≡ insert_device b (insert_device a l)
insert_comm a b l (inl h) = insert_before a b l h
insert_comm a b l (inr h) = sym (insert_before b a l h)

-- Of any two devices of the list, the comparison puts one before the other.
abbrev pub Distinguished : List WemoDevice → Type 0
Distinguished [] = Unit
Distinguished (d ∷ ds) = All (Comparable d) ds × Distinguished ds

All-perm : (P : WemoDevice → Type 0) (xs ys : List WemoDevice) → Permᴰ xs ys → All P xs → All P ys
All-perm P _ _ nil h = tt
All-perm P (x ∷ xs) (y ∷ ys) (cons e p) h = (subst P e h.0, All-perm P xs ys p h.1)
All-perm P _ _ (swap e₁ e₂) h = (subst P e₂ h.1.0, (subst P e₁ h.0, h.1.1))
All-perm P xs ys (trans {l₂ = l₂} p q) h = All-perm P l₂ ys q (All-perm P xs l₂ p h)

Comparable-sym : (a b : WemoDevice) → Comparable a b → Comparable b a
Comparable-sym a b (inl h) = inr h
Comparable-sym a b (inr h) = inl h

Distinguished-perm : (xs ys : List WemoDevice) → Permᴰ xs ys → Distinguished xs → Distinguished ys
Distinguished-perm _ _ nil h = tt
Distinguished-perm (x ∷ xs) (y ∷ ys) (cons e p) h = (
  subst (λ d. All (Comparable d) ys) e (All-perm (Comparable x) xs ys p h.0),
  Distinguished-perm xs ys p h.1,
)
Distinguished-perm _ _ (swap {a} {b} {a'} {b'} {l} e₁ e₂) h = (
  (
    subst (λ d. Comparable d b') e₂ (subst (Comparable b) e₁ (Comparable-sym a b h.0.0)),
    subst (λ d. All (Comparable d) l) e₂ h.1.0,
  ),
  (subst (λ d. All (Comparable d) l) e₁ h.0.1, h.1.1),
)
Distinguished-perm xs ys (trans {l₂ = l₂} p q) h =
    Distinguished-perm l₂ ys q (Distinguished-perm xs l₂ p h)

sort_devices-perm :
    (xs ys : List WemoDevice) → Permᴰ xs ys → Distinguished xs → sort_devices xs ≡ sort_devices ys
unfolding sort_devices
sort_devices-perm _ _ nil h = refl
sort_devices-perm (x ∷ xs) (y ∷ ys) (cons e p) h =
    ap (λ d. insert_device d (sort_devices xs)) e
    ∙ ap (insert_device y) (sort_devices-perm xs ys p h.1)
sort_devices-perm _ _ (swap {a} {b} {a'} {b'} {l} e₁ e₂) h =
    insert_comm a b (sort_devices l) h.0.0
    ∙ (ap (λ d. insert_device d (insert_device a (sort_devices l))) e₂
        ∙ ap (λ d. insert_device a' (insert_device d (sort_devices l))) e₁)
sort_devices-perm xs ys (trans {l₂ = l₂} p q) h =
    sort_devices-perm xs l₂ p h ∙ sort_devices-perm l₂ ys q (Distinguished-perm xs l₂ p h)

-- No later device comes before an earlier one.
abbrev pub Ordered : List WemoDevice → Type 0
Ordered [] = Unit
Ordered (d ∷ ds) = All (λ e. device_lt e d ≡ false) ds × Ordered ds

-- What comes before `d` comes before `e`, or `e` before `d`.
text_lt_split : (s t u : Text) → text_lt s u ≡ true → (text_lt s t ≡ true) ⊎ (text_lt t u ≡ true)
text_lt_split s t u h = elim (Bool-cases (text_lt s t)) [
  | inl p ↦ inl p
  | inr p ↦ elim (Bool-cases (text_lt t s)) [
    | inl q ↦ inr (text_lt_trans t s u q h)
    | inr q ↦ inr (subst (λ v. text_lt v u ≡ true) (text_lt_total s t p q) h)
  ]
]

text_lt_decided : (s t : Text) → text_lt s t ≡ false → text_lt t s ≡ false → text_eq s t ≡ true
text_lt_decided s t h k = subst (λ u. text_eq s u ≡ true) (text_lt_total s t h k) (text_eq_refl s)

device_lt_split :
    (a b d : WemoDevice) → device_lt a d ≡ true → device_lt a b ≡ false → device_lt b d ≡ false → ⊥
unfolding device_lt
device_lt_split a b d h p q = ground (
  arith,
  text_eq_left a.udn b.udn d.udn,
  text_eq_left b.udn d.udn a.udn,
  text_eq_sym a.udn b.udn,
  text_eq_sym a.udn d.udn,
  text_lt_left a.udn b.udn d.udn,
  text_lt_right a.udn b.udn d.udn,
  text_lt_differs a.udn d.udn,
  text_lt_differs a.udn b.udn,
  text_lt_differs b.udn d.udn,
  text_lt_split a.udn b.udn d.udn,
  text_lt_split a.friendly_name b.friendly_name d.friendly_name,
  text_lt_right b.udn a.udn d.udn,
  text_lt_decided a.udn b.udn,
)

pub All-insert :
    (P : WemoDevice → Type 0) (d : WemoDevice) (l : List WemoDevice)
    → P d
    → All P l
    → All P (insert_device d l)
unfolding insert_device
All-insert P d [] h k = (h, tt)
All-insert P d (e ∷ l) h k = elim (Bool-cases (device_lt e d)) [
  | inl p ↦ rw (p, insert_device) (k.0, All-insert P d l h k.1)
  | inr p ↦ rw (p, insert_device) (h, (k.0, k.1))
]

insert-Ordered : (d : WemoDevice) (l : List WemoDevice) → Ordered l → Ordered (insert_device d l)
unfolding insert_device
insert-Ordered d [] h = (tt, tt)
insert-Ordered d (e ∷ l) h = elim (Bool-cases (device_lt e d)) [
  | inl p ↦
      rw (p, insert_device)
        (
          All-insert (λ x. device_lt x e ≡ false) d l (device_lt_asymm e d p) h.0,
          insert-Ordered d l h.1,
        )
  | inr p ↦ rw (p, insert_device) ((p, All-imp l (after p) h.0), (h.0, h.1))
]
  where
    after : device_lt e d ≡ false → (x : WemoDevice) → device_lt x e ≡ false → device_lt x d ≡ false
    after p x q = elim (Bool-cases (device_lt x d)) [
      | inl r ↦ absurd (device_lt_split x e d r q p)
      | inr r ↦ r
    ]

insert-perm : (d : WemoDevice) (l : List WemoDevice) → Permᴰ (d ∷ l) (insert_device d l)
unfolding insert_device
insert-perm d [] = cons refl nil
insert-perm d (e ∷ l) = elim (Bool-cases (device_lt e d)) [
  | inl p ↦ rw (p, insert_device) (trans (swap refl refl) (cons refl (insert-perm d l)))
  | inr p ↦ rw (p, insert_device) (Permᴰ.refl (d ∷ e ∷ l))
]

-- A device that is not put before another has no smaller udn.
pub udn_not_before : (a b : WemoDevice) → device_lt a b ≡ false → text_lt a.udn b.udn ≡ false
unfolding device_lt
udn_not_before a b h = ground (arith, text_lt_differs a.udn b.udn)

-- The sorted list holds the discovered devices, each as often as it was discovered, and in it no
-- later device is one that the comparison of udns, and of names where the udns are the same, puts
-- before an earlier one.
pub sort_devices_lem :
    (ds : List WemoDevice) → Permᴰ ds (sort_devices ds) × Ordered (sort_devices ds)
unfolding sort_devices
sort_devices_lem [] = (nil, tt)
sort_devices_lem (d ∷ ds) =
    let (p, o) = sort_devices_lem ds in
    (trans (cons refl p) (insert-perm d (sort_devices ds)), insert-Ordered d (sort_devices ds) o)

module _ ⦃c : Sdk⦄ where
  -- Start-up does not depend on the order in which the engine lists the devices, as long as the
  -- comparison of udns and names puts one before the other of any two of them.
  pub application_init_order :
      (fuel last : ℕ) (xs ys : List WemoDevice) (s : Bridge)
      → Permᴰ xs ys
      → Distinguished xs
      → application_init fuel last xs s ≡ application_init fuel last ys s
  unfolding application_init
  application_init_order fuel last xs ys s p h =
      ap (λ ds. publish_all fuel ds (reset last s)) (sort_devices-perm xs ys p h)
