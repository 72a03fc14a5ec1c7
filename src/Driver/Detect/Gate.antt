-- ===== src/Driver/Detect/Gate.antt =====
-- The PCI gate: what `astral_card_matches` and `astral_card_present` accept.
use astral_hwmon.Base.{
  ℕ, ◌^◌, ◌<◌, ◌≡◌, refl, ◌≢◌, ◌↔◌, ◌⊎◌, inl, inr, Bool, true, false, Option, none, some, List, [],
  ◌∷◌, arith, ◌==◌, Bool-cases, All, Any, Any-map, not-Any, Any-split,
}
use astral_hwmon.Base.Text.{Bytes}
use astral_hwmon.Driver.Detect.{
  pci_vendor_nvidia, Model, astral_models, PciDev, Parent, no_parent, not_pci, pci, Adapter,
  is_model, model_name_from, model_name, PciBus, card_present_from, card_unknown, or_else,
  card_present, accept, parent_matches, card_matches,
}

-- A published card: an NVIDIA device with the subsystem ids of some row of the list.
abbrev pub HasRow : List Model → PciDev → Type 0
HasRow [] pdev = ⊥
HasRow (m ∷ rest) pdev =
    ((m.subsystem_vendor ≡ pdev.subsystem_vendor) × (m.subsystem_device ≡ pdev.subsystem_device))
    ⊎ HasRow rest pdev

-- Some device is there.
abbrev pub Present : Option Bytes → Type 0
Present none = ⊥
Present (some model) = Unit {0}

HasRow-head :
    (m : Model) (ms : List Model) (pdev : PciDev)
    → is_model pdev m ≡ false
    → HasRow (m ∷ ms) pdev
    → HasRow ms pdev
HasRow-head m ms pdev differs (inl (v, d)) = absurd (ground arith)
HasRow-head m ms pdev differs (inr h) = h

-- A name is found exactly for the devices of the list.
model_name_from_iff :
    (ms : List Model) (pdev : PciDev) → Present (model_name_from ms pdev) ↔ HasRow ms pdev
unfolding model_name_from
model_name_from_iff [] pdev = ((λ h. absurd h), (λ h. absurd h))
model_name_from_iff (m ∷ ms) pdev =
    let rest = model_name_from_iff ms pdev in
    elim (Bool-cases (is_model pdev m)) [
      | inl same ↦ rw same ((λ _. inl (ground arith)), (λ _. tt))
      | inr differs ↦
          rw differs ((λ h. inr (rest.0 h)), (λ h. rest.1 (HasRow-head m ms pdev differs h)))
    ]

-- What may be talked to: the adapter of an NVIDIA PCI device that is a published card, or of any
-- NVIDIA PCI device where `allow_unknown` is set.
pub data IsAllowed (allow_unknown : Bool) : Parent → Type 0 where
  published :
      {pdev : PciDev}
      → pdev.vendor ≡ pci_vendor_nvidia
      → HasRow astral_models pdev
      → IsAllowed allow_unknown (pci pdev)
  relaxed :
      {pdev : PciDev}
      → pdev.vendor ≡ pci_vendor_nvidia
      → allow_unknown ≡ true
      → IsAllowed allow_unknown (pci pdev)

accept-IsAllowed :
    (pdev : PciDev) (allow_unknown : Bool) (model : Option Bytes)
    → pdev.vendor ≡ pci_vendor_nvidia
    → (Present model ↔ HasRow astral_models pdev)
    → Present (accept model allow_unknown) ↔ IsAllowed allow_unknown (pci pdev)
unfolding accept
accept-IsAllowed pdev allow_unknown (some name) v row_iff =
    ((λ _. published v (row_iff.0 tt)), (λ _. tt))
accept-IsAllowed pdev true none v row_iff = ((λ _. relaxed v refl), (λ _. tt))
accept-IsAllowed pdev false none v row_iff = ((λ h. absurd h), refused row_iff)
  where
    refused : (Present none ↔ HasRow astral_models pdev) → IsAllowed false (pci pdev) → ⊥
    refused e (published _ r) = e.1 r
    refused e (relaxed _ a) = cc

foreign :
    (allow_unknown : Bool) (pdev : PciDev)
    → pdev.vendor ≢ pci_vendor_nvidia
    → ¬ IsAllowed allow_unknown (pci pdev)
foreign a pdev h (published v r) = h v
foreign a pdev h (relaxed v e) = h v

not-IsAllowed-no_parent : (a : Bool) → ¬ IsAllowed a no_parent
not-IsAllowed-no_parent a h = elim h [ ]

not-IsAllowed-not_pci : (a : Bool) → ¬ IsAllowed a not_pci
not-IsAllowed-not_pci a h = elim h [ ]

parent_matches_iff :
    (owner : Parent) (allow_unknown : Bool)
    → Present (parent_matches owner allow_unknown) ↔ IsAllowed allow_unknown owner
unfolding parent_matches
parent_matches_iff no_parent a = ((λ h. absurd h), (λ h. absurd (not-IsAllowed-no_parent a h)))
parent_matches_iff not_pci a = ((λ h. absurd h), (λ h. absurd (not-IsAllowed-not_pci a h)))
parent_matches_iff (pci pdev) a = elim (Bool-cases (pdev.vendor == pci_vendor_nvidia)) [
  | inl nvidia ↦ rw nvidia (
      accept-IsAllowed pdev a (model_name pdev) (ground arith)
        (unfold model_name in model_name_from_iff astral_models pdev))
  | inr other ↦ rw other ((λ h. absurd h), (λ h. absurd (foreign a pdev (ground arith) h)))
]

-- The gate passes exactly the adapters that may be talked to; neither the name nor the number of
-- the adapter counts, and no setting lets through a device that is not an NVIDIA PCI device.
pub card_matches_iff :
    (adap : Adapter) (allow_unknown : Bool)
    → Present (card_matches adap allow_unknown) ↔ IsAllowed allow_unknown adap.parent
unfolding card_matches
card_matches_iff adap allow_unknown = parent_matches_iff adap.parent allow_unknown

-- An id of PCI.
abbrev pub IsId : ℕ → Type 0
IsId n = n < 2 ^ 16

abbrev HasIds : Model → Type 0
HasIds m = IsId m.subsystem_vendor × IsId m.subsystem_device

astral_models-HasIds : All HasIds astral_models
astral_models-HasIds =
    unfold astral_models in
    (
      (omega arith, omega arith),
      (
        (omega arith, omega arith),
        (
          (omega arith, omega arith),
          (
            (omega arith, omega arith),
            (
              (omega arith, omega arith),
              (
                (omega arith, omega arith),
                ((omega arith, omega arith), ((omega arith, omega arith), tt)),
              ),
            ),
          ),
        ),
      ),
    )

nvidia-IsId : IsId pci_vendor_nvidia
nvidia-IsId = omega arith

-- What the PCI core documents: a search by ids of 16 bits, none of which is the wildcard PCI_ANY_ID,
-- finds a device exactly when the bus has one that fits.
pub record Enumerates (bus : PciBus) (devices : List PciDev) : Type 0 where
  pub subsys :
      (vendor sv sd : ℕ)
      → IsId vendor
      → IsId sv
      → IsId sd
      → (bus.get_subsys vendor sv sd ≡ true)
        ↔ Any
            (λ d. (d.vendor ≡ vendor) × (sv ≡ d.subsystem_vendor) × (sd ≡ d.subsystem_device))
            devices
  pub device :
      (vendor : ℕ)
      → IsId vendor
      → (bus.get_device vendor ≡ true) ↔ Any (λ d. d.vendor ≡ vendor) devices

module _ (bus : PciBus) (devices : List PciDev) (e : Enumerates bus devices) where
  abbrev Listed : List Model → PciDev → Type 0
  Listed ms d = (d.vendor ≡ pci_vendor_nvidia) × HasRow ms d

  abbrev IsCard : Model → PciDev → Type 0
  IsCard m d =
      (d.vendor ≡ pci_vendor_nvidia)
      × (m.subsystem_vendor ≡ d.subsystem_vendor)
      × (m.subsystem_device ≡ d.subsystem_device)

  Listed-split :
      (m : Model) (ms : List Model) (d : PciDev) → Listed (m ∷ ms) d → IsCard m d ⊎ Listed ms d
  Listed-split m ms d (v, inl r) = inl (v, r.0, r.1)
  Listed-split m ms d (v, inr r) = inr (v, r)

  Present-from_iff :
      (ms : List Model)
      → All HasIds ms
      → Present (card_present_from ms bus) ↔ Any (Listed ms) devices
  unfolding card_present_from
  Present-from_iff [] ids = ((λ h. absurd h), (λ h. not-Any (Listed []) (λ d r. r.1) devices h))
  Present-from_iff (m ∷ ms) ids =
      let rest = Present-from_iff ms ids.1 in
      let card =
        e.subsys pci_vendor_nvidia m.subsystem_vendor m.subsystem_device nvidia-IsId ids.0.0
          ids.0.1 in
      elim (Bool-cases (bus.get_subsys pci_vendor_nvidia m.subsystem_vendor m.subsystem_device)) [
        | inl there ↦ rw there (
          (λ _.
              Any-map (IsCard m) (Listed (m ∷ ms)) (λ d c. (c.0, inl (c.1, c.2))) devices
                (card.0 there)),
          (λ _. tt),
        )
        | inr absent ↦ rw absent (
          (λ h. Any-map (Listed ms) (Listed (m ∷ ms)) (λ d r. (r.0, inr r.1)) devices (rest.0 h)),
          (λ h.
              elim (Any-split (IsCard m) (Listed ms) devices (
                Any-map (Listed (m ∷ ms)) (λ d. IsCard m d ⊎ Listed ms d) (Listed-split m ms)
                  devices h)) [ inl c ↦ cc (absent, card.1 c) | inr r ↦ rest.1 r ]),
        )
      ]

  IsAllowed-split :
      (a : Bool) (d : PciDev)
      → IsAllowed a (pci d)
      → Listed astral_models d ⊎ ((d.vendor ≡ pci_vendor_nvidia) × (a ≡ true))
  IsAllowed-split a d (published v r) = inl (v, r)
  IsAllowed-split a d (relaxed v r) = inr (v, r)

  unknown_iff :
      (a : Bool)
      → Present (card_unknown bus a)
        ↔ Any (λ d. (d.vendor ≡ pci_vendor_nvidia) × (a ≡ true)) devices
  unfolding card_unknown
  unknown_iff false = ((λ h. absurd h), (λ h. not-Any _ (λ d r. cc) devices h))
  unknown_iff true = elim (Bool-cases (bus.get_device pci_vendor_nvidia)) [
    | inl there ↦ rw there (
      (λ _.
          Any-map _ _ (λ d v. (v, refl)) devices
            ((e.device pci_vendor_nvidia nvidia-IsId).0 there)),
      (λ _. tt),
    )
    | inr absent ↦ rw absent (
      (λ h. absurd h),
      (λ h. cc (
        absent,
        (e.device pci_vendor_nvidia nvidia-IsId).1 (Any-map _ _ (λ d r. r.0) devices h),
      )),
    )
  ]

  or_else_iff : (x y : Option Bytes) → Present (or_else x y) ↔ (Present x ⊎ Present y)
  or_else_iff (some n) y = ((λ h. inl tt), (λ h. tt))
  or_else_iff none y = ((λ h. inr h), (λ h. elim h [ inl k ↦ absurd k | inr k ↦ k ]))

  -- Stage 1 and the gate of stage 2 agree: stage 1 passes exactly when some PCI device of the
  -- machine is one that the gate would let an adapter of through.
  pub card_present_iff :
      (a : Bool) → Present (card_present bus a) ↔ Any (λ d. IsAllowed a (pci d)) devices
  unfolding card_present
  card_present_iff a = (found, shown)
    where
      either :
          Present (or_else (card_present_from astral_models bus) (card_unknown bus a))
          ↔ (Present (card_present_from astral_models bus) ⊎ Present (card_unknown bus a))
      either = or_else_iff _ _

      found :
          Present (or_else (card_present_from astral_models bus) (card_unknown bus a))
          → Any (λ d. IsAllowed a (pci d)) devices
      found h = elim (either.0 h) [
        | inl k ↦
            Any-map (Listed astral_models) (λ d. IsAllowed a (pci d)) (λ d r. published r.0 r.1)
              devices ((Present-from_iff astral_models astral_models-HasIds).0 k)
        | inr k ↦
            Any-map (λ d. (d.vendor ≡ pci_vendor_nvidia) × (a ≡ true)) (λ d. IsAllowed a (pci d))
              (λ d r. relaxed r.0 r.1) devices ((unknown_iff a).0 k)
      ]

      shown :
          Any (λ d. IsAllowed a (pci d)) devices
          → Present (or_else (card_present_from astral_models bus) (card_unknown bus a))
      shown h =
          either.1
            (elim (Any-split (Listed astral_models)
              (λ d. (d.vendor ≡ pci_vendor_nvidia) × (a ≡ true)) devices
              (Any-map _ _ (IsAllowed-split a) devices h)) [
                | inl r ↦ inl ((Present-from_iff astral_models astral_models-HasIds).1 r)
                | inr r ↦ inr ((unknown_iff a).1 r)
              ])
