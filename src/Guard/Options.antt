-- ===== src/Guard/Options.antt =====
-- guard/guard_main.c: the command line. `VERSION` is GUARD_VERSION, which the build sets.
pub mod Accepted
use astral_hwmon.Base.{
  ℕ, Bool, true, false, ◌||◌, not, Option, none, some, List, [], ◌∷◌, ◌++◌, if◌then◌else◌,
}
use astral_hwmon.Base.Text.{Bytes, codes, decimal, texts}
use astral_hwmon.Base.Scan.{strtol}
use astral_hwmon.Guard.Types.{
  Level, guard_ok, guard_unknown, Limits, guard_limits_default, guard_max_samples,
  guard_default_samples, guard_max_interval_ms,
}
use astral_hwmon.Guard.Sysfs.{str_eq, whole_number}

-- What `main` keeps of the command line.
pub record Config : Type 0 where
  pub lim : Limits
  pub sysfs_root : Bytes
  pub samples : ℕ
  pub interval : ℕ
  pub json : Bool
  pub quiet : Bool

abbrev pub default_config : Config
default_config = record {
  lim = guard_limits_default;
  sysfs_root = codes "/sys";
  samples = guard_default_samples;
  interval = 0;
  json = false;
  quiet = false;
}

abbrev pub usage : Bytes
usage = texts (
    codes "usage: astral-guard [options]\n"
    ∷ codes "  --json               machine-readable output\n"
    ∷ codes "  --samples N          samples per run (default "
    ∷ decimal guard_default_samples
    ∷ codes ")\n"
    ∷ codes "  --interval MS        ms between samples (default: the chip's)\n"
    ∷ codes "  --sysfs-root PATH    sysfs mount point (default /sys)\n"
    ∷ codes "  --warn-ratio PCT     min/max warning threshold (default "
    ∷ decimal guard_limits_default.ratio_warn_pct
    ∷ codes ")\n"
    ∷ codes "  --note-ratio PCT     min/max advisory threshold (default "
    ∷ decimal guard_limits_default.ratio_note_pct
    ∷ codes ")\n"
    ∷ codes "  --quiet              print only when not OK\n"
    ∷ codes "  --version\n"
    ∷ codes "\nexit: 0 OK, 1 WARNING, 2 CRITICAL, 3 UNKNOWN\n"
    ∷ [])

-- The value that `parse_int` stores, or `none` where it complains: an integer, all of the argument, in range.
unfoldable pub parse_int : Bytes → ℕ → ℕ → Option ℕ
unfolding whole_number
parse_int s lo hi = whole_number lo hi (strtol s)

abbrev pub complaint : Bytes → ℕ → ℕ → Bytes → Bytes
complaint s lo hi what = texts (
    what
    ∷ codes " takes an integer in "
    ∷ decimal lo
    ∷ codes ".."
    ∷ decimal hi
    ∷ codes ", not \""
    ∷ s
    ∷ codes "\"\n"
    ∷ [])

-- The options that take a value.
pub data Setting : Type 0 where
  samples interval sysfs_root warn_ratio note_ratio : Setting

-- What an argument is, in the order of the tests.
pub data Word : Type 0 where
  json quiet version help unknown : Word
  setting : Setting → Word

unfoldable pub word_of : Bytes → Word
unfolding str_eq
word_of a =
    if str_eq a (codes "--json")
    then Word.json
    else if str_eq a (codes "--quiet")
    then Word.quiet
    else if str_eq a (codes "--version")
    then Word.version
    else if str_eq a (codes "--help") || str_eq a (codes "-h")
    then Word.help
    else if str_eq a (codes "--samples")
    then Word.setting Setting.samples
    else if str_eq a (codes "--interval")
    then Word.setting Setting.interval
    else if str_eq a (codes "--sysfs-root")
    then Word.setting Setting.sysfs_root
    else if str_eq a (codes "--warn-ratio")
    then Word.setting Setting.warn_ratio
    else if str_eq a (codes "--note-ratio")
    then Word.setting Setting.note_ratio
    else Word.unknown

-- The range of a number.
abbrev pub lowest_of : Setting → ℕ
lowest_of Setting.samples = 1
lowest_of Setting.interval = 0
lowest_of Setting.sysfs_root = 0
lowest_of Setting.warn_ratio = 1
lowest_of Setting.note_ratio = 1

abbrev pub highest_of : Setting → ℕ
highest_of Setting.samples = guard_max_samples
highest_of Setting.interval = guard_max_interval_ms
highest_of Setting.sysfs_root = 0
highest_of Setting.warn_ratio = 100
highest_of Setting.note_ratio = 100

abbrev pub stored : Setting → Option ℕ → Config → Option Config
stored s none cfg = none
stored Setting.samples (some n) cfg = some (record cfg { samples = n })
stored Setting.interval (some n) cfg = some (record cfg { interval = n })
stored Setting.sysfs_root (some n) cfg = some cfg
stored Setting.warn_ratio (some n) cfg =
    some (record cfg { lim = record cfg.lim { ratio_warn_pct = n } })
stored Setting.note_ratio (some n) cfg =
    some (record cfg { lim = record cfg.lim { ratio_note_pct = n } })

abbrev pub is_root : Setting → Bool
is_root Setting.sysfs_root = true
is_root _ = false

-- The configuration with the value of an option, or `none` where the value is refused.
unfoldable pub set : Setting → Bytes → Config → Option Config
unfolding parse_int
set s value cfg =
    if is_root s
    then some (record cfg { sysfs_root = value })
    else stored s (parse_int value (lowest_of s) (highest_of s)) cfg

-- What the options come to: a run to make, or an exit at once with its output on stdout and on stderr.
pub data Parsed : Type 0 where
  go : Config → Parsed
  stop : Bytes → Bytes → Level → Parsed

abbrev pub refused : Bytes → Parsed
refused a =
    Parsed.stop [] (codes "unknown or incomplete option: " ++ (a ++ (codes "\n" ++ usage)))
      guard_unknown

-- What is done for an argument `a`: `next` goes on with the loop, `take_value` does the same with the
-- value that follows.
abbrev pub dispatch :
    Bytes → Config → Bytes → (Config → Parsed) → (Setting → Parsed) → Word → Parsed
dispatch VERSION cfg a next take_value Word.json = next (record cfg { json = true })
dispatch VERSION cfg a next take_value Word.quiet = next (record cfg { quiet = true })
dispatch VERSION cfg a next take_value Word.version =
    Parsed.stop (codes "astral-guard " ++ (VERSION ++ codes "\n")) [] guard_ok
dispatch VERSION cfg a next take_value Word.help = Parsed.stop usage [] guard_ok
dispatch VERSION cfg a next take_value Word.unknown = refused a
dispatch VERSION cfg a next take_value (Word.setting s) = take_value s

abbrev pub or_complain : Bytes → Bytes → Setting → (Config → Parsed) → Option Config → Parsed
or_complain a value s next none =
    Parsed.stop [] (complaint value (lowest_of s) (highest_of s) a) guard_unknown
or_complain a value s next (some cfg) = next cfg

-- The loop over the arguments.
unfoldable pub parse_args : Bytes → Config → List Bytes → Parsed
unfolding word_of set
parse_args VERSION cfg [] = Parsed.go cfg
parse_args VERSION cfg (a ∷ []) =
    dispatch VERSION cfg a (λ cfg'. parse_args VERSION cfg' []) (λ s. refused a) (word_of a)
parse_args VERSION cfg (a ∷ (value ∷ rest)) =
    dispatch VERSION cfg a (λ cfg'. parse_args VERSION cfg' (value ∷ rest))
      (λ s. or_complain a value s (λ cfg'. parse_args VERSION cfg' rest) (set s value cfg))
      (word_of a)
