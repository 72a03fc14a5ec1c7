-- ===== src/Driver/Probe/First.antt =====
-- What the walk chooses: the first adapter of the bus that may be talked to and is selected.
use astral_hwmon.Base.{
  ℕ, suc, ◌+◌, ◌≡◌, refl, inl, inr, Bool, false, ◌&&◌, Option, none, some, List, [], ◌∷◌,
  if◌then◌else◌, arith, count, Bool-cases,
}
use astral_hwmon.Base.Int.{ℤ}
use astral_hwmon.Driver.Detect.{card_matches}
use astral_hwmon.Driver.Probe.{
  adapter_selected, I2cDev, adapter, other, Ctx, empty_ctx, gated, try_adapter, walk,
}

module _ (bus : ℤ) (allow_unknown : Bool) where
  -- An adapter of a card that may be talked to, and such an adapter that is also selected.
  abbrev pub of_card : I2cDev → Bool
  of_card (adapter adap) = gated (card_matches adap allow_unknown)
  of_card other = false

  abbrev pub eligible : I2cDev → Bool
  eligible (adapter adap) = gated (card_matches adap allow_unknown) && adapter_selected bus adap
  eligible other = false

  -- The number of the first eligible adapter.
  abbrev pub first_eligible : List I2cDev → Option ℕ
  first_eligible [] = none
  first_eligible (adapter adap ∷ devs) =
      if eligible (adapter adap) then some adap.id else first_eligible devs
  first_eligible (other ∷ devs) = first_eligible devs

  walk-first :
      (ctx : Ctx) (devs : List I2cDev)
      → ctx.adapter_id ≡ none
      → (walk bus allow_unknown ctx devs).adapter_id ≡ first_eligible devs
  unfolding walk try_adapter
  walk-first ctx [] h = h
  walk-first ctx (other ∷ devs) h = walk-first ctx devs h
  walk-first ctx (adapter adap ∷ devs) h =
      elim (Bool-cases (gated (card_matches adap allow_unknown))) [
        | inr foreign ↦ rw foreign (walk-first ctx devs h)
        | inl ours ↦ elim (Bool-cases (adapter_selected bus adap)) [
          | inl chosen ↦ rw (ours, chosen) refl
          | inr passed ↦
              rw (ours, passed)
                (walk-first (record ctx { card_adapters = suc ctx.card_adapters }) devs h)
        ]
      ]

  walk-counts :
      (ctx : Ctx) (devs : List I2cDev)
      → first_eligible devs ≡ none
      → ((walk bus allow_unknown ctx devs).card_adapters ≡ ctx.card_adapters + count of_card devs)
        × ((walk bus allow_unknown ctx devs).candidates ≡ ctx.candidates)
  unfolding walk try_adapter
  walk-counts ctx [] h = (omega arith, refl)
  walk-counts ctx (other ∷ devs) h = walk-counts ctx devs h
  walk-counts ctx (adapter adap ∷ devs) h =
      elim (Bool-cases (gated (card_matches adap allow_unknown))) [
        | inr foreign ↦ rw foreign (walk-counts ctx devs (ground arith))
        | inl ours ↦ elim (Bool-cases (adapter_selected bus adap)) [
          | inl chosen ↦ absurd (ground arith)
          | inr passed ↦
              let rest =
                walk-counts (record ctx { card_adapters = suc ctx.card_adapters }) devs
                  (ground arith) in
              rw (ours, passed) (omega (arith, rest.0), rest.1)
        ]
      ]

  -- The walk chooses the first adapter of the bus that passes the gate and is selected, whatever
  -- stands before and after it, and none if there is none.
  pub walk-first_eligible :
      (devs : List I2cDev)
      → (walk bus allow_unknown empty_ctx devs).adapter_id ≡ first_eligible devs
  walk-first_eligible devs = walk-first empty_ctx devs refl

  -- Where the walk finds no candidate it has counted every adapter that passes the gate, and no
  -- candidate, which is what tells the stages of waiting apart.
  pub walk-none :
      (devs : List I2cDev)
      → first_eligible devs ≡ none
      → ((walk bus allow_unknown empty_ctx devs).card_adapters ≡ count of_card devs)
        × ((walk bus allow_unknown empty_ctx devs).candidates ≡ 0)
  walk-none devs h = let c = walk-counts empty_ctx devs h in (omega (arith, c.0), c.1)
