-- ===== src/Guard/Runs.antt =====
-- Concrete runs of the guard's main: what is printed, how long it naps, and a transient.
use astral_hwmon.Base.{
  ◌≤◌, ◌≡◌, refl, ◌↔◌, inl, inr, true, none, some, [], ◌∷◌, ◌++◌, ◌==◌, if◌then◌else◌, arith, All,
  length, index,
}
use astral_hwmon.Base.Text.{codes}
use astral_hwmon.Guard.Types.{guard_ok, Limits, guard_limits_default, Sample, Chip}
use astral_hwmon.Guard.Sysfs.{Sysfs}
use astral_hwmon.Guard.Eval.{guard_eval}
use astral_hwmon.Guard.Eval.Range.{IsQuiet, guard_eval-IsQuiet}
use astral_hwmon.Guard.Options.{Config, default_config}
use astral_hwmon.Guard.Main.{main, check_chips}
use astral_hwmon.Guard.Main.Output.{object, more_objects, check_chips-json, check_chips-quiet_iff}
use astral_hwmon.Guard.Main.Naps.{IsNap, main-naps}

abbrev calm : Sample
calm = record { mv = λ p. 12000; ma = λ p. 8000 }

abbrev spike : Sample
spike = record { mv = λ p. 12000; ma = λ p. if index p == 0 then 10000 else 8000 }

abbrev unplugged : Sysfs
unplugged = record { file = λ path. none; dir = λ path. none }

abbrev one_chip_path : Chip
one_chip_path = record { path = codes "/sys/class/hwmon/hwmon3"; update_interval_ms = 200 }

abbrev json_config : Config
json_config = record default_config { json = true }

abbrev quiet_config : Config
quiet_config = record default_config { quiet = true }

json_example :
    (check_chips json_config (λ i k. unplugged) calm (some (one_chip_path ∷ []))).stdout
    ≡ codes "[\n"
      ++ (object json_config (λ i k. unplugged) calm 0 one_chip_path
          ++ more_objects json_config (λ i k. unplugged) calm 1 [])
      ++ codes "\n]\n"
json_example = check_chips-json json_config (λ i k. unplugged) calm one_chip_path [] refl

silence_example :
    ((check_chips quiet_config (λ i k. unplugged) calm (some (one_chip_path ∷ []))).stdout ≡ []) ↔ (
      (check_chips quiet_config (λ i k. unplugged) calm (some (one_chip_path ∷ []))).exit
      ≡ guard_ok)
silence_example =
    check_chips-quiet_iff quiet_config (λ i k. unplugged) calm refl refl one_chip_path []

naps_example :
    All IsNap (main [] unplugged (λ i k. unplugged) calm (codes "--json" ∷ [])).naps
    × (length (main [] unplugged (λ i k. unplugged) calm (codes "--json" ∷ [])).naps ≤ 124)
naps_example = main-naps [] unplugged (λ i k. unplugged) calm (codes "--json" ∷ [])

calm-IsQuiet : IsQuiet guard_limits_default calm
calm-IsQuiet = record {
  conducts = λ p h. omega (arith, h.1);
  rated = λ p. omega arith;
  cool = λ p. omega arith;
  balanced = ((λ h. omega (arith, h.1.2)), (λ h. omega (arith, h.1.2)));
  powered = ((λ h. omega (arith, h.1)), (λ h. omega (arith, h.1)));
}

transient_example : (guard_eval (spike ∷ calm ∷ []) guard_limits_default).level ≡ guard_ok
transient_example =
    guard_eval-IsQuiet guard_limits_default spike (calm ∷ []) (inr (inl calm-IsQuiet))

-- One pin at 5 A, the others at 9 A, and --warn-ratio 60.
abbrev starved : Sample
starved = record { mv = λ p. 12000; ma = λ p. if index p == 0 then 5000 else 9000 }

abbrev low_limits : Limits
low_limits = record guard_limits_default { ratio_warn_pct = 60 }
