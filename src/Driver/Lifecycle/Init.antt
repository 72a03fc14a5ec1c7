-- ===== src/Driver/Lifecycle/Init.antt =====
-- When module init keeps the module loaded.
use astral_hwmon.Base.{
  ℕ, ◌≤◌, ◌≡◌, refl, ◌↔◌, inl, inr, Bool, true, false, ◌||◌, not, Option, none, some, List, ◌==◌,
  if◌then◌else◌, arith, Bool-cases, ltb, Any,
}
use astral_hwmon.Base.Int.{ℤ, pos, negsuc}
use astral_hwmon.Base.Text.{Bytes}
use astral_hwmon.Driver.Regs.{ok, err}
use astral_hwmon.Driver.Cache.{einval}
use astral_hwmon.Driver.Detect.{PciBus, PciDev, pci, card_present}
use astral_hwmon.Driver.Detect.Gate.{IsAllowed, Present, Enumerates, card_present_iff}
use astral_hwmon.Driver.Probe.{gated}
use astral_hwmon.Driver.Lifecycle.{State, loaded, enodev, init}

gated-Present_iff : (o : Option Bytes) → (gated o ≡ true) ↔ Present o
gated-Present_iff none = ((λ h. cc), (λ h. absurd h))
gated-Present_iff (some model) = ((λ h. _), (λ h. refl))

-- The chain of tests of a valid address.
init_chain :
    (bad : Bool) (there : Bool) (registered : ℕ) (s : State)
    → ((if bad
          then err einval
          else if not there
          then err enodev
          else if not (registered == 0)
          then err registered
          else ok s)
        ≡ ok s)
      ↔ ((bad ≡ false) × (there ≡ true) × (registered ≡ 0))
init_chain true there registered s = ((λ h. cc), (λ h. cc))
init_chain false false registered s = ((λ h. cc), (λ h. cc))
init_chain false true registered s = elim (Bool-cases (registered == 0)) [
  | inl zero_given ↦ rw zero_given ((λ h. (refl, refl, ground arith)), (λ h. refl))
  | inr failed ↦ rw failed ((λ h. cc), (λ h. ground (arith, h.2)))
]

module _ (bus : PciBus) (devices : List PciDev) (e : Enumerates bus devices) where
  -- Module init goes on to probe, and the module stays loaded, exactly when the address is one that
  -- i2c allows, from 0x08 to 0x77, some PCI device is an allowed card, and the notifier is registered.
  pub init-stays_iff :
      (allow_unknown : Bool) (addr : ℤ) (registered : ℕ)
      → (init bus allow_unknown addr registered ≡ ok loaded) ↔ (
          ((n : ℕ) × (addr ≡ pos n) × (8 ≤ n) × (n ≤ 119))
          × Any (λ d. IsAllowed allow_unknown (pci d)) devices
          × (registered ≡ 0))
  unfolding init
  init-stays_iff allow_unknown (negsuc n) registered =
      ((λ h. cc), (λ h. let (m, e, low, high) = h.0 in cc e))
  init-stays_iff allow_unknown (pos addr) registered =
      let chain =
        init_chain (ltb addr 8 || ltb 119 addr) (gated (card_present bus allow_unknown)) registered
          loaded in
      let gate = gated-Present_iff (card_present bus allow_unknown) in
      let card = card_present_iff bus devices e allow_unknown in
      (
        (λ h.
            let (fits, there, fine) = chain.0 h in
            let (low, high) = range addr fits in
            ((addr, refl, low, high), card.0 (gate.0 there), fine)),
        (λ h.
            let (n, e, low, high) = h.0 in
            chain.1 (in_range addr n e low high, gate.1 (card.1 h.1), h.2)),
      )
    where
      range : (addr : ℕ) → (ltb addr 8 || ltb 119 addr) ≡ false → (8 ≤ addr) × (addr ≤ 119)
      range addr h = ground arith

      in_range :
          (addr n : ℕ) → pos addr ≡ pos n → 8 ≤ n → n ≤ 119 → (ltb addr 8 || ltb 119 addr) ≡ false
      in_range addr n e low high = ground arith
