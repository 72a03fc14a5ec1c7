-- ===== src/Guard/Eval/Findings.antt =====
-- The findings that a run should have, stated over all samples and without counters, and the proof
-- that `guard_eval` returns exactly them.
use astral_hwmon.Base.{
  ℕ, ◌+◌, ◌≤◌, ◌≡◌, sym, ap, ◌∙◌, Bool, true, false, List, [], ◌∷◌, ◌++◌, foldl, arith,
  if◌then◌else◌, length, All-append, count_full, All, all, length-append, Pin, pin1, pin2, pin3,
  pin4, pin5, pin6, pins,
}
use mathlib.Core.List.{foldl-append}
use astral_hwmon.Base.Text.{snprintf-snprintf}
use astral_hwmon.Guard.Types.{
  guard_ok, guard_warn, guard_crit, Sample, Limits, Finding, Verdict, clear,
}
use astral_hwmon.Guard.Eval.{
  add, open_rule, current_rule, imbalance_rule, voltage_rule, report, guard_eval, open_finding,
  crit_finding, warn_finding, differ_finding, uneven_finding, voltage_finding, open_detail,
  crit_detail, warn_detail, differ_detail, uneven_detail, voltage_detail,
}
use astral_hwmon.Guard.Tally.{Tally}
use astral_hwmon.Guard.Eval.Counts.{
  at_crit, at_warn, is_open, is_uneven, is_sagging, peak, deepest, least_pct, Counts, tally-Counts,
}
use astral_hwmon.Guard.Eval.Adding.{Fits, raised, add-each}

-- A finding, if its condition held in every sample.
unfoldable pub when : Bool → Finding → List Finding → List Finding
when held x other = if held then x ∷ [] else other

abbrev pub each_pin : (Pin → List Finding) → List Finding
each_pin g = g pin1 ++ (g pin2 ++ (g pin3 ++ (g pin4 ++ (g pin5 ++ g pin6))))

module _ (lim : Limits) (first : ℕ) (ss : List Sample) where
  -- R2: a pin that was open in every sample.
  abbrev pub open_findings : Pin → List Finding
  open_findings p = when (all (is_open lim p) ss) (open_finding lim p) []

  -- R1: a pin that was at its rating, or at the warning point, in every sample.
  abbrev pub current_findings : Pin → List Finding
  current_findings p =
      when (all (at_crit lim p) ss) (crit_finding lim p (peak p ss))
        (when (all (at_warn lim p) ss) (warn_finding lim p (peak p ss)) [])

  -- R3: pins that were uneven in every sample, by the worst threshold that held throughout.
  abbrev pub imbalance_findings : List Finding
  imbalance_findings =
      when (all (is_uneven lim lim.ratio_crit_pct) ss)
        (differ_finding guard_crit lim.ratio_crit_pct (least_pct lim ss))
        (when (all (is_uneven lim lim.ratio_warn_pct) ss)
          (differ_finding guard_warn lim.ratio_warn_pct (least_pct lim ss))
          (when (all (is_uneven lim lim.ratio_note_pct) ss) (uneven_finding (least_pct lim ss)) []))

  -- R4: a pin voltage that was below a floor in every sample.
  abbrev pub voltage_findings : List Finding
  voltage_findings =
      when (all (is_sagging lim.mv_crit) ss)
        (voltage_finding guard_crit (deepest first ss) lim.mv_crit)
        (when (all (is_sagging lim.mv_warn) ss)
          (voltage_finding guard_warn (deepest first ss) lim.mv_warn) [])

  unfoldable pub findings : List Finding
  findings =
      each_pin open_findings
      ++ (each_pin current_findings ++ (imbalance_findings ++ voltage_findings))

module _ (lim : Limits) (first : ℕ) (ss : List Sample) (t : Tally) (c : Counts lim first ss t) where
  open_rule_lem :
      (out : Verdict) (p : Pin)
      → open_rule lim t (length ss) out p ≡ foldl add out (open_findings lim first ss p)
  unfolding open_rule when
  open_rule_lem out p = rw (c.open_hits p, count_full (is_open lim p) ss) (ground arith)

  current_rule_lem :
      (out : Verdict) (p : Pin)
      → current_rule lim t (length ss) out p ≡ foldl add out (current_findings lim first ss p)
  unfolding current_rule when
  current_rule_lem out p =
      rw
        (
          c.crit_hits p,
          c.warn_hits p,
          c.worst_ma p,
          count_full (at_crit lim p) ss,
          count_full (at_warn lim p) ss,
        )
        (ground arith)

  imbalance_rule_lem :
      (out : Verdict)
      → imbalance_rule lim t (length ss) out ≡ foldl add out (imbalance_findings lim first ss)
  unfolding imbalance_rule when
  imbalance_rule_lem out =
      rw
        (
          c.ratio_crit_hits,
          c.ratio_warn_hits,
          c.note_hits,
          c.worst_pct,
          count_full (is_uneven lim lim.ratio_crit_pct) ss,
          count_full (is_uneven lim lim.ratio_warn_pct) ss,
          count_full (is_uneven lim lim.ratio_note_pct) ss,
        )
        (ground arith)

  voltage_rule_lem :
      (out : Verdict)
      → voltage_rule lim t (length ss) out ≡ foldl add out (voltage_findings lim first ss)
  unfolding voltage_rule when
  voltage_rule_lem out =
      rw
        (
          c.mv_crit_hits,
          c.mv_warn_hits,
          c.worst_mv,
          count_full (is_sagging lim.mv_crit) ss,
          count_full (is_sagging lim.mv_warn) ss,
        )
        (ground arith)

-- A loop over the pins whose rounds add lists adds their concatenation.
each_pin-fold :
    (rule : Verdict → Pin → Verdict) (g : Pin → List Finding)
    → ((out : Verdict) (p : Pin) → rule out p ≡ foldl add out (g p))
    → (out : Verdict) → foldl rule out pins ≡ foldl add out (each_pin g)
each_pin-fold rule g law out = simp (law, foldl-append)

report_lem :
    (lim : Limits) (first : ℕ) (ss : List Sample) (t : Tally)
    → Counts lim first ss t
    → report lim t (length ss) ≡ foldl add clear (findings lim first ss)
unfolding report findings
report_lem lim first ss t c =
    rw
      (
        each_pin-fold (open_rule lim t (length ss)) (open_findings lim first ss)
            (open_rule_lem lim first ss t c),
        each_pin-fold (current_rule lim t (length ss)) (current_findings lim first ss)
            (current_rule_lem lim first ss t c),
        imbalance_rule_lem lim first ss t c,
        voltage_rule_lem lim first ss t c,
      )
      (sym (
        foldl-append add clear (each_pin open_all) _
        ∙ foldl-append add (foldl add clear (each_pin open_all)) (each_pin current_all) _
        ∙ foldl-append add _ (imbalance_findings lim first ss) _))
  where
    open_all : Pin → List Finding
    open_all = open_findings lim first ss

    current_all : Pin → List Finding
    current_all = current_findings lim first ss

-- What a run of findings may be: short enough, and with details that fit.
record AtMost (n : ℕ) (fs : List Finding) : Type 0 where
  few : length fs ≤ n
  fits : All Fits fs

AtMost-append :
    {m n : ℕ} {fs gs : List Finding} → AtMost m fs → AtMost n gs → AtMost (m + n) (fs ++ gs)
AtMost-append {fs} {gs} h k = record {
  few = omega (arith, h.few, k.few, length-append fs gs);
  fits = All-append Fits fs gs h.fits k.fits;
}

when-AtMost :
    (b : Bool) (x : Finding) {fs : List Finding} → Fits x → AtMost 1 fs → AtMost 1 (when b x fs)
unfolding when
when-AtMost true x fits h = record { few = omega arith; fits = (fits, tt) }
when-AtMost false x fits h = h

none-AtMost : AtMost 1 []
none-AtMost = record { few = omega arith; fits = tt }

each_pin-AtMost : {g : Pin → List Finding} → ((p : Pin) → AtMost 1 (g p)) → AtMost 6 (each_pin g)
each_pin-AtMost h = AtMost-append (h pin1) (
    AtMost-append (h pin2)
      (AtMost-append (h pin3) (AtMost-append (h pin4) (AtMost-append (h pin5) (h pin6)))))

module _ (lim : Limits) (first : ℕ) (ss : List Sample) where
  open-AtMost : (p : Pin) → AtMost 1 (open_findings lim first ss p)
  unfolding open_detail
  open-AtMost p = when-AtMost _ _ (snprintf-snprintf _ _) none-AtMost

  current-AtMost : (p : Pin) → AtMost 1 (current_findings lim first ss p)
  unfolding crit_detail warn_detail
  current-AtMost p =
      when-AtMost _ _ (snprintf-snprintf _ _) (when-AtMost _ _ (snprintf-snprintf _ _) none-AtMost)

  imbalance-AtMost : AtMost 1 (imbalance_findings lim first ss)
  unfolding differ_detail uneven_detail
  imbalance-AtMost = when-AtMost _ _ (snprintf-snprintf _ _) (
      when-AtMost _ _ (snprintf-snprintf _ _) (when-AtMost _ _ (snprintf-snprintf _ _) none-AtMost))

  voltage-AtMost : AtMost 1 (voltage_findings lim first ss)
  unfolding voltage_detail
  voltage-AtMost =
      when-AtMost _ _ (snprintf-snprintf _ _) (when-AtMost _ _ (snprintf-snprintf _ _) none-AtMost)

  findings-AtMost : AtMost 14 (findings lim first ss)
  unfolding findings
  findings-AtMost = AtMost-append (each_pin-AtMost open-AtMost) (
      AtMost-append (each_pin-AtMost current-AtMost)
        (AtMost-append imbalance-AtMost voltage-AtMost))

-- The run as a fold over the findings that it should have.
pub guard_eval-findings :
    (lim : Limits) (s : Sample) (ss : List Sample)
    → let fs = findings lim (s.mv pin1) (s ∷ ss) in
      guard_eval (s ∷ ss) lim ≡ record { level = raised guard_ok fs; f = fs }
unfolding guard_eval
guard_eval-findings lim s ss =
    let few = findings-AtMost lim (s.mv pin1) (s ∷ ss) in
    report_lem lim (s.mv pin1) (s ∷ ss) _ (tally-Counts lim s (s ∷ ss))
    ∙ add-each (findings lim (s.mv pin1) (s ∷ ss)) clear (omega (arith, few.few)) few.fits

-- No run has more than fourteen findings, so the array of sixteen never fills up.
pub guard_eval-few : (lim : Limits) (ss : List Sample) → length (guard_eval ss lim).f ≤ 14
guard_eval-few lim [] = unfold guard_eval in omega arith
guard_eval-few lim (s ∷ ss) = omega (
  arith,
  ap (λ (v : Verdict). length v.f) (guard_eval-findings lim s ss),
  (findings-AtMost lim (s.mv pin1) (s ∷ ss)).few,
)
