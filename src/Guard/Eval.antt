-- ===== src/Guard/Eval.antt =====
-- guard/guard_eval.c: the findings and the four rules, on what the loop over the samples has
-- counted (Guard/Tally). Readings are at most 30000 and percentages at most 100, so no `int` reaches
-- 2 ^ 31, and the arithmetic is that of the numbers.
pub mod Counts
pub mod Adding
pub mod Findings
pub mod Extremes
pub mod Levels
pub mod Alarms
pub mod Range
use astral_hwmon.Base.{
  ℕ, ◌+◌, Bool, true, false, List, [], ◌∷◌, ◌++◌, foldl, ltb, ◌==◌, if◌then◌else◌, length, Pin,
  index, pins,
}
use astral_hwmon.Base.Int.{sub_ℕ}
use astral_hwmon.Base.Text.{Bytes, codes, decimal, show_int, snprintf}
use astral_hwmon.Guard.Types.{
  guard_max_findings, Level, guard_warn, guard_crit, guard_note, guard_severity, Sample, Limits,
  open_pin, pin_current, imbalance, voltage, Finding, Verdict, clear,
}
use astral_hwmon.Guard.Tally.{lowest, Tally, start, sample_step}

-- `is_note` is the test `level != GUARD_NOTE`, turned round.
abbrev pub is_note : Level → Bool
is_note guard_note = true
is_note _ = false

-- `char detail[96]`
abbrev pub detail_size : ℕ
detail_size = 96

unfoldable pub raise : Level → Level → Level
unfolding guard_severity
raise new old =
    if is_note new then old else if ltb (guard_severity old) (guard_severity new) then new else old

unfoldable pub add : Verdict → Finding → Verdict
unfolding raise
add v f =
    let raised : Verdict = record v { level = raise f.level v.level } in
    if length v.f == guard_max_findings
    then raised
    else record raised { f = v.f ++ record f { detail = snprintf detail_size f.detail } ∷ [] }

-- The text of each finding, as its snprintf leaves it.
unfoldable pub open_detail : Limits → Pin → Bytes
open_detail lim pin = snprintf detail_size (
    codes "pin "
    ++ decimal (index pin + 1)
    ++ codes " under "
    ++ decimal lim.open_pin_ma
    ++ codes " mA while the connector is loaded")

unfoldable pub crit_detail : Limits → Pin → ℕ → Bytes
crit_detail lim pin ma = snprintf detail_size (
    codes "pin "
    ++ decimal (index pin + 1)
    ++ codes " at "
    ++ decimal ma
    ++ codes " mA, at or above the "
    ++ decimal lim.pin_crit_ma
    ++ codes " mA rating")

unfoldable pub warn_detail : Limits → Pin → ℕ → Bytes
warn_detail lim pin ma = snprintf detail_size (
    codes "pin "
    ++ decimal (index pin + 1)
    ++ codes " at "
    ++ decimal ma
    ++ codes " mA, above the "
    ++ decimal lim.pin_warn_ma
    ++ codes " mA warning point")

unfoldable pub differ_detail : ℕ → ℕ → Bytes
differ_detail limit pct = snprintf detail_size (
    codes "pin currents differ by more than "
    ++ show_int (sub_ℕ 100 limit)
    ++ codes "%: min/max "
    ++ decimal pct
    ++ codes "%")

unfoldable pub uneven_detail : ℕ → Bytes
uneven_detail pct =
    snprintf detail_size
      (codes "pin currents uneven: min/max " ++ decimal pct ++ codes "% - worth watching")

unfoldable pub voltage_detail : ℕ → ℕ → Bytes
voltage_detail mv limit =
    snprintf detail_size
      (codes "lowest pin at " ++ decimal mv ++ codes " mV, below " ++ decimal limit ++ codes " mV")

abbrev pub open_finding : Limits → Pin → Finding
open_finding lim pin = record {
  level = guard_crit;
  rule = open_pin;
  pin = index pin + 1;
  value = 0;
  detail = open_detail lim pin;
}

abbrev pub crit_finding : Limits → Pin → ℕ → Finding
crit_finding lim pin ma = record {
  level = guard_crit;
  rule = pin_current;
  pin = index pin + 1;
  value = ma;
  detail = crit_detail lim pin ma;
}

abbrev pub warn_finding : Limits → Pin → ℕ → Finding
warn_finding lim pin ma = record {
  level = guard_warn;
  rule = pin_current;
  pin = index pin + 1;
  value = ma;
  detail = warn_detail lim pin ma;
}

abbrev pub differ_finding : Level → ℕ → ℕ → Finding
differ_finding level limit pct = record {
  level = level;
  rule = imbalance;
  pin = 0;
  value = pct;
  detail = differ_detail limit pct;
}

abbrev pub uneven_finding : ℕ → Finding
uneven_finding pct = record {
  level = guard_note;
  rule = imbalance;
  pin = 0;
  value = pct;
  detail = uneven_detail pct;
}

abbrev pub voltage_finding : Level → ℕ → ℕ → Finding
voltage_finding level mv limit = record {
  level = level;
  rule = voltage;
  pin = 0;
  value = mv;
  detail = voltage_detail mv limit;
}

-- R2, one round of its loop.
unfoldable pub open_rule : Limits → Tally → ℕ → Verdict → Pin → Verdict
open_rule lim t n out pin = if t.open_hits pin == n then add out (open_finding lim pin) else out

-- R1, one round of its loop.
unfoldable pub current_rule : Limits → Tally → ℕ → Verdict → Pin → Verdict
current_rule lim t n out pin =
    if t.crit_hits pin == n
    then add out (crit_finding lim pin (t.worst_ma pin))
    else if t.warn_hits pin == n
    then add out (warn_finding lim pin (t.worst_ma pin))
    else out

-- R3
unfoldable pub imbalance_rule : Limits → Tally → ℕ → Verdict → Verdict
imbalance_rule lim t n out =
    if t.ratio_crit_hits == n
    then add out (differ_finding guard_crit lim.ratio_crit_pct t.worst_pct)
    else if t.ratio_warn_hits == n
    then add out (differ_finding guard_warn lim.ratio_warn_pct t.worst_pct)
    else if t.note_hits == n
    then add out (uneven_finding t.worst_pct)
    else out

-- R4
unfoldable pub voltage_rule : Limits → Tally → ℕ → Verdict → Verdict
voltage_rule lim t n out =
    if t.mv_crit_hits == n
    then add out (voltage_finding guard_crit t.worst_mv lim.mv_crit)
    else if t.mv_warn_hits == n
    then add out (voltage_finding guard_warn t.worst_mv lim.mv_warn)
    else out

-- The rules in the order of the code.
unfoldable pub report : Limits → Tally → ℕ → Verdict
unfolding open_rule current_rule imbalance_rule voltage_rule
report lim t n = voltage_rule lim t n (
    imbalance_rule lim t n
      (foldl (current_rule lim t n) (foldl (open_rule lim t n) clear pins) pins))

unfoldable pub guard_eval : List Sample → Limits → Verdict
unfolding sample_step report
guard_eval [] lim = clear
guard_eval (first ∷ rest) lim =
    report lim (foldl (sample_step lim) (start first) (first ∷ rest)) (length (first ∷ rest))
