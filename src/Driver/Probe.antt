-- ===== src/Driver/Probe.antt =====
-- driver/astral_hwmon.c: the search for the adapter to attach to, `astral_adapter_selected`,
-- `astral_try_adapter` and the walk of `i2c_for_each_dev`. `bus` is the module parameter, negative
-- for automatic.
pub mod First
use astral_hwmon.Base.{
  ℕ, suc, Bool, true, false, Option, none, some, List, [], ◌∷◌, ◌==◌, if◌then◌else◌,
}
use astral_hwmon.Base.Int.{ℤ, pos, negsuc}
use astral_hwmon.Base.Text.{Bytes}
use astral_hwmon.Driver.Detect.{Adapter, is_sensor_adapter, card_matches}

-- `astral_adapter_selected`
unfoldable pub adapter_selected : ℤ → Adapter → Bool
adapter_selected (pos bus) adap = adap.id == bus
adapter_selected (negsuc n) adap = is_sensor_adapter adap

-- A device of the i2c bus: an adapter, or one of another type, such as a client.
pub data I2cDev : Type 0 where
  adapter : Adapter → I2cDev
  other : I2cDev

-- `struct astral_probe_ctx`; `adapter_id` is `none` for -1.
pub record Ctx : Type 0 where
  pub card_adapters : ℕ
  pub candidates : ℕ
  pub adapter_id : Option ℕ

abbrev pub empty_ctx : Ctx
empty_ctx = record { card_adapters = 0; candidates = 0; adapter_id = none }

abbrev pub gated : Option Bytes → Bool
gated none = false
gated (some model) = true

-- `astral_try_adapter`: the context that it leaves, and whether the walk stops.
unfoldable pub try_adapter : ℤ → Bool → Ctx → I2cDev → Ctx × Bool
unfolding adapter_selected
try_adapter bus allow_unknown ctx other = (ctx, false)
try_adapter bus allow_unknown ctx (adapter adap) =
    let counted : Ctx = record ctx { card_adapters = suc ctx.card_adapters } in
    if gated (card_matches adap allow_unknown)
    then (if adapter_selected bus adap
        then (
          record counted { candidates = suc counted.candidates; adapter_id = some adap.id },
          true,
        )
        else (counted, false))
    else (ctx, false)

-- `i2c_for_each_dev(&ctx, astral_try_adapter)`, which ends at the first callback that stops it.
unfoldable pub walk : ℤ → Bool → Ctx → List I2cDev → Ctx
unfolding try_adapter
walk bus allow_unknown ctx [] = ctx
walk bus allow_unknown ctx (dev ∷ devs) =
    let (ctx', stop) = try_adapter bus allow_unknown ctx dev in
    if stop then ctx' else walk bus allow_unknown ctx' devs
