-- ===== src/Guard/Types.antt =====
-- guard/astral_guard.h: the types and limits of the guard, and the severity and names of levels.
-- The `int` readings and thresholds are numbers that are not negative: the reading path accepts no
-- other (Guard/Sysfs), and every threshold is a default or an option between 1 and 100.
use astral_hwmon.Base.{ℕ, ◌==◌, if◌then◌else◌, Bool, true, false, List, [], Pin}
use astral_hwmon.Base.Int.{ℤ, pos, negsuc}
use astral_hwmon.Base.Text.{Bytes, codes}

abbrev pub guard_max_findings : ℕ
guard_max_findings = 16

abbrev pub guard_max_samples : ℕ
guard_max_samples = 32

abbrev pub guard_max_chips : ℕ
guard_max_chips = 4

abbrev pub guard_default_samples : ℕ
guard_default_samples = 5

abbrev pub guard_default_interval_ms : ℕ
guard_default_interval_ms = 200

abbrev pub guard_max_interval_ms : ℕ
guard_max_interval_ms = 3600000

abbrev pub guard_chip_name : Bytes
guard_chip_name = codes "astral12vhpwr"

abbrev pub guard_mv_min : ℕ
guard_mv_min = 6000

abbrev pub guard_mv_max : ℕ
guard_mv_max = 13000

abbrev pub guard_ma_max : ℕ
guard_ma_max = 30000

-- `enum guard_level`, with GUARD_NOTE, which an `int` level may hold too.
pub data Level : Type 0 where
  guard_ok guard_warn guard_crit guard_unknown guard_note : Level

abbrev pub same_level : Level → Level → Bool
same_level guard_ok guard_ok = true
same_level guard_warn guard_warn = true
same_level guard_crit guard_crit = true
same_level guard_unknown guard_unknown = true
same_level guard_note guard_note = true
same_level _ _ = false

-- The value of a level; those of the enum are the exit codes.
abbrev pub level_code : Level → ℤ
level_code guard_ok = pos 0
level_code guard_warn = pos 1
level_code guard_crit = pos 2
level_code guard_unknown = pos 3
level_code guard_note = negsuc 0

-- `guard_severity` of any `int`: the rank to compare levels by.
unfoldable pub severity_of_int : ℤ → ℕ
severity_of_int (negsuc n) = if n == 0 then 1 else 3
severity_of_int (pos n) =
    if n == 0 then 0 else if n == 1 then 2 else if n == 3 then 3 else if n == 2 then 4 else 3

unfoldable pub guard_severity : Level → ℕ
unfolding severity_of_int
guard_severity level = severity_of_int (level_code level)

pub record Sample : Type 0 where
  pub mv : Pin → ℕ
  pub ma : Pin → ℕ

pub record Limits : Type 0 where
  pub pin_warn_ma : ℕ
  pub pin_crit_ma : ℕ
  pub open_pin_ma : ℕ
  pub open_gate_ma : ℕ
  pub ratio_gate_ma : ℕ
  pub ratio_note_pct : ℕ
  pub ratio_warn_pct : ℕ
  pub ratio_crit_pct : ℕ
  pub mv_warn : ℕ
  pub mv_crit : ℕ

abbrev pub guard_limits_default : Limits
guard_limits_default = record {
  pin_warn_ma = 9200;
  pin_crit_ma = 9500;
  open_pin_ma = 500;
  open_gate_ma = 10000;
  ratio_gate_ma = 20000;
  ratio_note_pct = 85;
  ratio_warn_pct = 70;
  ratio_crit_pct = 60;
  mv_warn = 11400;
  mv_crit = 11000;
}

-- The stable ids of the rules, "read" among them, which `main` gives an unreadable chip.
pub data Rule : Type 0 where
  open_pin pin_current imbalance voltage read : Rule

abbrev pub rule_id : Rule → Bytes
rule_id open_pin = codes "open-pin"
rule_id pin_current = codes "pin-current"
rule_id imbalance = codes "imbalance"
rule_id voltage = codes "voltage"
rule_id read = codes "read"

pub record Finding : Type 0 where
  pub level : Level
  pub rule : Rule
  pub pin : ℕ  -- 1..6, or 0 when not pin-specific
  pub value : ℕ
  pub detail : Bytes

-- `f` holds the first `n` entries of the array.
pub record Verdict : Type 0 where
  pub level : Level
  pub f : List Finding

-- `memset(out, 0, sizeof(*out))`
abbrev pub clear : Verdict
clear = record { level = guard_ok; f = [] }

pub record Chip : Type 0 where
  pub path : Bytes
  pub update_interval_ms : ℕ
