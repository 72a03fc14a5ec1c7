-- ===== src/Guard/Eval/Range.antt =====
-- What decides a run: one quiet sample silences it, and a low warning ratio leaves no warning.
use astral_hwmon.Base.{◌<◌, ◌≡◌, inl, inr, List, [], ◌∷◌, arith, All, Any, Pin}
use astral_hwmon.Guard.Types.{Sample, Limits, guard_ok}
use astral_hwmon.Guard.Eval.{guard_eval}
use astral_hwmon.Guard.Eval.Alarms.{OpenPin, Uneven, Sagging, Critical, Warning, guard_eval-Means}

-- A sample that shows no fault and no warning.
pub record IsQuiet (lim : Limits) (s : Sample) : Type 0 where
  pub conducts : (p : Pin) → ¬ OpenPin lim p s
  pub rated : (p : Pin) → s.ma p < lim.pin_crit_ma
  pub cool : (p : Pin) → s.ma p < lim.pin_warn_ma
  pub balanced : (¬ Uneven lim lim.ratio_crit_pct s) × (¬ Uneven lim lim.ratio_warn_pct s)
  pub powered : (¬ Sagging lim.mv_crit s) × (¬ Sagging lim.mv_warn s)

All-refuted :
    {P Q : Sample → Type 0} (ss : List Sample)
    → Any Q ss
    → All P ss
    → ((s : Sample) → Q s → ¬ P s)
    → ⊥
All-refuted [] none_there all h = elim none_there [ ]
All-refuted (s ∷ ss) (inl q) all h = h s q all.0
All-refuted (s ∷ ss) (inr later) all h = All-refuted ss later all.1 h

module _ (lim : Limits) (ss : List Sample) (quiet : Any (IsQuiet lim) ss) where
  not-Critical : ¬ Critical lim ss
  not-Critical (Critical.open_pin p all) = All-refuted ss quiet all (λ s q. q.conducts p)
  not-Critical (Critical.over_rating p all) =
      All-refuted ss quiet all (λ s q h. omega (arith, q.rated p, h))
  not-Critical (Critical.imbalance all) = All-refuted ss quiet all (λ s q. q.balanced.0)
  not-Critical (Critical.undervoltage all) = All-refuted ss quiet all (λ s q. q.powered.0)

  not-Warning : ¬ Warning lim ss
  not-Warning (Warning.over_warning p all) =
      All-refuted ss quiet all (λ s q h. omega (arith, q.cool p, h))
  not-Warning (Warning.imbalance all) = All-refuted ss quiet all (λ s q. q.balanced.1)
  not-Warning (Warning.undervoltage all) = All-refuted ss quiet all (λ s q. q.powered.1)

-- One quiet sample anywhere in a run makes the verdict OK, whatever the other samples show: a
-- transient never raises an alarm.
pub guard_eval-IsQuiet :
    (lim : Limits) (s : Sample) (ss : List Sample)
    → Any (IsQuiet lim) (s ∷ ss)
    → (guard_eval (s ∷ ss) lim).level ≡ guard_ok
guard_eval-IsQuiet lim s ss quiet =
    (guard_eval-Means lim s ss guard_ok).1
      (not-Critical lim (s ∷ ss) quiet, not-Warning lim (s ∷ ss) quiet)
