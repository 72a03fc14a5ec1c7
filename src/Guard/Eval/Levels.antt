-- ===== src/Guard/Eval/Levels.antt =====
-- The level of a verdict, as a condition on the samples.
use astral_hwmon.Base.{
  ℕ, ◌≡◌, refl, ap, ◌∙◌, ◌≢◌, inl, inr, Bool, true, false, ◌||◌, List, [], ◌∷◌, ◌++◌, arith,
  if◌then◌else◌, Bool-cases, all, Pin, pin1, pin2, pin3, pin4, pin5, pin6,
}
use astral_hwmon.Guard.Types.{
  Level, guard_ok, guard_warn, guard_crit, guard_unknown, guard_note, same_level, Sample, Limits,
  Finding, Verdict,
}
use astral_hwmon.Guard.Eval.{raise, guard_eval}
use astral_hwmon.Guard.Eval.Counts.{at_crit, at_warn, is_open, is_uneven, is_sagging}
use astral_hwmon.Guard.Eval.Adding.{raised, has}
use astral_hwmon.Guard.Eval.Findings.{
  when, open_findings, current_findings, imbalance_findings, voltage_findings, findings,
  guard_eval-findings,
}

-- The worst level of findings, given which levels occur; an advisory does not count.
abbrev pub worst : (crit unknown warn : Bool) → Level
worst true u w = guard_crit
worst false true w = guard_unknown
worst false false true = guard_warn
worst false false false = guard_ok

abbrev pub worst_of : List Finding → Level
worst_of fs = worst (has guard_crit fs) (has guard_unknown fs) (has guard_warn fs)

raise-worst :
    (k l : Level) (c u w : Bool)
    → l ≢ guard_note
    → raise (worst c u w) (raise k l)
      ≡ raise
          (worst
            (same_level guard_crit k || c)
            (same_level guard_unknown k || u)
            (same_level guard_warn k || w))
          l
unfolding raise
raise-worst guard_ok l c u w h = ground arith
raise-worst k l c u w h = ground arith

raise-ne-note : (k l : Level) → l ≢ guard_note → raise k l ≢ guard_note
unfolding raise
raise-ne-note k l h = ground arith

raised-worst :
    (l : Level) (fs : List Finding) → l ≢ guard_note → raised l fs ≡ raise (worst_of fs) l
raised-worst l [] h = unfold raise in ground arith
raised-worst l (x ∷ fs) h =
    raised-worst (raise x.level l) fs (raise-ne-note x.level l h) ∙ raise-worst x.level l _ _ _ h

has-append : (l : Level) (fs gs : List Finding) → has l (fs ++ gs) ≡ (has l fs || has l gs)
has-append l [] gs = refl
has-append l (x ∷ fs) gs = ground (arith, has-append l fs gs)

abbrev pub any_pin : (Pin → Bool) → Bool
any_pin t = t pin1 || (t pin2 || (t pin3 || (t pin4 || (t pin5 || t pin6))))

module _ (lim : Limits) (ss : List Sample) where
  -- Some rule finds CRITICAL throughout.
  unfoldable pub crit_condition : Bool
  crit_condition =
      any_pin (λ p. all (is_open lim p) ss)
      || (any_pin (λ p. all (at_crit lim p) ss)
          || (all (is_uneven lim lim.ratio_crit_pct) ss || all (is_sagging lim.mv_crit) ss))

  -- Some rule finds WARNING throughout.
  unfoldable pub warn_condition : Bool
  warn_condition =
      any_pin (λ p. all (at_warn lim p) ss)
      || (all (is_uneven lim lim.ratio_warn_pct) ss || all (is_sagging lim.mv_warn) ss)

||-false_left : (a b : Bool) → (a || b) ≡ false → a ≡ false
||-false_left a b h = ground arith

||-false_right : (a b : Bool) → (a || b) ≡ false → b ≡ false
||-false_right a b h = ground arith

-- A condition that holds for no pin fails for each.
any_pin-false : (t : Pin → Bool) → any_pin t ≡ false → (p : Pin) → t p ≡ false
any_pin-false t h pin1 = ground arith
any_pin-false t h p = ground arith

module _ (lim : Limits) (first : ℕ) (ss : List Sample) where
  has_crit_open : (p : Pin) → has guard_crit (open_findings lim first ss p) ≡ all (is_open lim p) ss
  unfolding when
  has_crit_open p = ground arith

  has_crit_current :
      (p : Pin) → has guard_crit (current_findings lim first ss p) ≡ all (at_crit lim p) ss
  unfolding when
  has_crit_current p = ground arith

  has_crit_imbalance :
      has guard_crit (imbalance_findings lim first ss) ≡ all (is_uneven lim lim.ratio_crit_pct) ss
  unfolding when
  has_crit_imbalance = ground arith

  has_crit_voltage :
      has guard_crit (voltage_findings lim first ss) ≡ all (is_sagging lim.mv_crit) ss
  unfolding when
  has_crit_voltage = ground arith

  has_crit : has guard_crit (findings lim first ss) ≡ crit_condition lim ss
  unfolding findings crit_condition
  has_crit =
      simp (has-append, has_crit_open, has_crit_current, has_crit_imbalance, has_crit_voltage)

  has_warn_open : (p : Pin) → has guard_warn (open_findings lim first ss p) ≡ false
  unfolding when
  has_warn_open p = ground arith

  has_warn_current :
      (p : Pin)
      → has guard_warn (current_findings lim first ss p)
        ≡ (if all (at_crit lim p) ss then false else all (at_warn lim p) ss)
  unfolding when
  has_warn_current p = ground arith

  has_warn_imbalance : has guard_warn (imbalance_findings lim first ss) ≡ (
      if all (is_uneven lim lim.ratio_crit_pct) ss
      then false
      else all (is_uneven lim lim.ratio_warn_pct) ss)
  unfolding when
  has_warn_imbalance = ground arith

  has_warn_voltage :
      has guard_warn (voltage_findings lim first ss)
      ≡ (if all (is_sagging lim.mv_crit) ss then false else all (is_sagging lim.mv_warn) ss)
  unfolding when
  has_warn_voltage = ground arith

  has_unknown_open : (p : Pin) → has guard_unknown (open_findings lim first ss p) ≡ false
  unfolding when
  has_unknown_open p = ground arith

  has_unknown_current : (p : Pin) → has guard_unknown (current_findings lim first ss p) ≡ false
  unfolding when
  has_unknown_current p = ground arith

  has_unknown_imbalance : has guard_unknown (imbalance_findings lim first ss) ≡ false
  unfolding when
  has_unknown_imbalance = ground arith

  has_unknown_voltage : has guard_unknown (voltage_findings lim first ss) ≡ false
  unfolding when
  has_unknown_voltage = ground arith

  has_unknown : has guard_unknown (findings lim first ss) ≡ false
  unfolding findings
  has_unknown = simp (
    has-append, has_unknown_open, has_unknown_current, has_unknown_imbalance, has_unknown_voltage,
  )

  has_warn :
      crit_condition lim ss ≡ false → has guard_warn (findings lim first ss) ≡ warn_condition lim ss
  unfolding findings warn_condition crit_condition
  has_warn h =
      simp (has-append, has_warn_open, has_warn_current, has_warn_imbalance, has_warn_voltage)
        (simp (
          ||-false_left uneven sagging throughout,
          ||-false_right uneven sagging throughout,
          any_pin-false (λ p. all (at_crit lim p) ss)
              (||-false_left over (uneven || sagging) currents),
        ))
    where
      opened : Bool
      opened = any_pin (λ p. all (is_open lim p) ss)

      over : Bool
      over = any_pin (λ p. all (at_crit lim p) ss)

      uneven : Bool
      uneven = all (is_uneven lim lim.ratio_crit_pct) ss

      sagging : Bool
      sagging = all (is_sagging lim.mv_crit) ss

      currents : (over || (uneven || sagging)) ≡ false
      currents = ||-false_right opened (over || (uneven || sagging)) h

      throughout : (uneven || sagging) ≡ false
      throughout = ||-false_right over (uneven || sagging) currents

raise_ok :
    (c w : Bool)
    → raise (worst c false w) guard_ok
      ≡ (if c then guard_crit else if w then guard_warn else guard_ok)
unfolding raise
raise_ok c w = ground arith

worst_of-findings :
    (lim : Limits) (first : ℕ) (ss : List Sample)
    → raise (worst_of (findings lim first ss)) guard_ok ≡ (
        if crit_condition lim ss
        then guard_crit
        else if warn_condition lim ss
        then guard_warn
        else guard_ok)
worst_of-findings lim first ss =
    rw (has_unknown lim first ss, raise_ok, has_crit lim first ss)
      (elim (Bool-cases (crit_condition lim ss)) [
        | inl e ↦ rw e
        | inr e ↦ rw (has_warn lim first ss e)
      ])

raise-ok : (c u w : Bool) → raise (worst c u w) guard_ok ≡ worst c u w
unfolding raise
raise-ok c u w = ground arith

-- On at least one sample `guard_eval` returns exactly the findings whose condition held in every
-- sample, in the order of the rules, and the worst level that one of them has: CRITICAL before
-- UNKNOWN before WARNING, and OK where there are none or advisories only.
pub guard_eval-worst_of :
    (lim : Limits) (s : Sample) (ss : List Sample)
    → let fs = findings lim (s.mv pin1) (s ∷ ss) in
      guard_eval (s ∷ ss) lim ≡ record { level = worst_of fs; f = fs }
guard_eval-worst_of lim s ss =
    guard_eval-findings lim s ss
    ∙ ap (λ l. record { level = l; f = findings lim (s.mv pin1) (s ∷ ss) })
        (raised-worst guard_ok (findings lim (s.mv pin1) (s ∷ ss)) (λ e. cc) ∙ raise-ok _ _ _)

-- The level of a run on at least one sample.
pub guard_eval-level :
    (lim : Limits) (s : Sample) (ss : List Sample)
    → (guard_eval (s ∷ ss) lim).level ≡ (
        if crit_condition lim (s ∷ ss)
        then guard_crit
        else if warn_condition lim (s ∷ ss)
        then guard_warn
        else guard_ok)
guard_eval-level lim s ss =
    ap (λ (v : Verdict). v.level) (guard_eval-findings lim s ss)
    ∙ raised-worst guard_ok (findings lim (s.mv pin1) (s ∷ ss)) (λ e. cc)
    ∙ worst_of-findings lim (s.mv pin1) (s ∷ ss)
