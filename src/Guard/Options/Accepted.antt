-- ===== src/Guard/Options/Accepted.antt =====
-- The command lines that a run accepts, and the ranges of what they set.
use astral_hwmon.Base.{ℕ, ◌≤◌, ◌≡◌, refl, ap, true, Option, none, some, List, [], ◌∷◌, arith}
use mathlib.Core.Path.{subst}
use astral_hwmon.Base.Text.{Bytes}
use astral_hwmon.Base.Scan.{strtol}
use astral_hwmon.Guard.Types.{
  Limits, guard_limits_default, guard_max_samples, guard_max_interval_ms,
}
use astral_hwmon.Guard.Sysfs.Attr.{whole_number-range}
use astral_hwmon.Guard.Options.{
  Config, default_config, Setting, Word, word_of, lowest_of, highest_of, stored, parse_int, set,
  Parsed, refused, dispatch, or_complain, parse_args,
}

abbrev pub Between : ℕ → ℕ → ℕ → Type 0
Between lo hi n = (lo ≤ n) × (n ≤ hi)

-- The default limits, except for two ratios, which may be any percentage but 0.
abbrev pub IsAccepted : Limits → Type 0
IsAccepted lim =
    Between 1 100 lim.ratio_warn_pct
    × Between 1 100 lim.ratio_note_pct
    × (lim ≡ record guard_limits_default {
      ratio_note_pct = lim.ratio_note_pct;
      ratio_warn_pct = lim.ratio_warn_pct;
    })

-- A configuration that `main` can run with.
abbrev pub IsRunnable : Config → Type 0
IsRunnable cfg =
    Between 1 guard_max_samples cfg.samples
    × Between 0 guard_max_interval_ms cfg.interval
    × IsAccepted cfg.lim

default-IsRunnable : IsRunnable default_config
default-IsRunnable = (
  (omega arith, omega arith),
  (omega arith, omega arith),
  ((omega arith, omega arith), (omega arith, omega arith), refl),
)

some-injective : {A : Type 0} {x y : A} → some x ≡ some y → x ≡ y
some-injective h = cc

stored-IsRunnable :
    (s : Setting) (o : Option ℕ) (cfg : Config) {cfg' : Config}
    → ((n : ℕ) → o ≡ some n → Between (lowest_of s) (highest_of s) n)
    → IsRunnable cfg
    → stored s o cfg ≡ some cfg'
    → IsRunnable cfg'
stored-IsRunnable s none cfg range (samples, interval, (warn, note, others)) h = cc
stored-IsRunnable Setting.samples (some n) cfg range (samples, interval, armed) h =
    subst IsRunnable (some-injective h) (range n refl, interval, armed)
stored-IsRunnable Setting.interval (some n) cfg range (samples, interval, armed) h =
    subst IsRunnable (some-injective h) (samples, range n refl, armed)
stored-IsRunnable Setting.sysfs_root (some n) cfg range (samples, interval, armed) h =
    subst IsRunnable (some-injective h) (samples, interval, armed)
stored-IsRunnable Setting.warn_ratio (some n) cfg range (samples, interval, (warn, note, others))
      h =
    subst IsRunnable (some-injective h) (
      samples,
      interval,
      (range n refl, note, ap {A = Limits} (λ l. record l { ratio_warn_pct = n }) others),
    )
stored-IsRunnable Setting.note_ratio (some n) cfg range (samples, interval, (warn, note, others))
      h =
    subst IsRunnable (some-injective h) (
      samples,
      interval,
      (warn, range n refl, ap {A = Limits} (λ l. record l { ratio_note_pct = n }) others),
    )

set-IsRunnable :
    (s : Setting) (value : Bytes) (cfg : Config) {cfg' : Config}
    → IsRunnable cfg
    → set s value cfg ≡ some cfg'
    → IsRunnable cfg'
unfolding set parse_int
set-IsRunnable Setting.sysfs_root value cfg (samples, interval, armed) h =
    subst IsRunnable (some-injective h) (samples, interval, armed)
set-IsRunnable Setting.samples value cfg (samples, interval, armed) h =
    stored-IsRunnable Setting.samples _ cfg
      (λ n e. whole_number-range 1 guard_max_samples (strtol value) e) (samples, interval, armed) h
set-IsRunnable Setting.interval value cfg (samples, interval, armed) h =
    stored-IsRunnable Setting.interval _ cfg
      (λ n e. whole_number-range 0 guard_max_interval_ms (strtol value) e)
      (samples, interval, armed) h
set-IsRunnable Setting.warn_ratio value cfg (samples, interval, armed) h =
    stored-IsRunnable Setting.warn_ratio _ cfg (λ n e. whole_number-range 1 100 (strtol value) e)
      (samples, interval, armed) h
set-IsRunnable Setting.note_ratio value cfg (samples, interval, armed) h =
    stored-IsRunnable Setting.note_ratio _ cfg (λ n e. whole_number-range 1 100 (strtol value) e)
      (samples, interval, armed) h

-- What a command line comes to is runnable, if it is a run.
abbrev Keeps : Parsed → Type 0
Keeps (Parsed.go cfg) = IsRunnable cfg
Keeps (Parsed.stop out err level) = Unit

dispatch-Keeps :
    (VERSION : Bytes) (cfg : Config) (a : Bytes) (next : Config → Parsed)
    (take_value : Setting → Parsed) (w : Word)
    → IsRunnable cfg
    → ((cfg' : Config) → IsRunnable cfg' → Keeps (next cfg'))
    → ((s : Setting) → Keeps (take_value s))
    → Keeps (dispatch VERSION cfg a next take_value w)
dispatch-Keeps VERSION cfg a next take_value Word.json (samples, interval, armed) n t =
    n (record cfg { json = true }) (samples, interval, armed)
dispatch-Keeps VERSION cfg a next take_value Word.quiet (samples, interval, armed) n t =
    n (record cfg { quiet = true }) (samples, interval, armed)
dispatch-Keeps VERSION cfg a next take_value Word.version runnable n t = _
dispatch-Keeps VERSION cfg a next take_value Word.help runnable n t = _
dispatch-Keeps VERSION cfg a next take_value Word.unknown runnable n t = _
dispatch-Keeps VERSION cfg a next take_value (Word.setting s) runnable n t = t s

or_complain-Keeps :
    (a value : Bytes) (s : Setting) (next : Config → Parsed) (o : Option Config)
    → ((cfg' : Config) → o ≡ some cfg' → Keeps (next cfg'))
    → Keeps (or_complain a value s next o)
or_complain-Keeps a value s next none n = _
or_complain-Keeps a value s next (some cfg') n = n cfg' refl

parse_args-Keeps :
    (VERSION : Bytes) (cfg : Config) (args : List Bytes)
    → IsRunnable cfg
    → Keeps (parse_args VERSION cfg args)
unfolding parse_args
parse_args-Keeps VERSION cfg [] h = h
parse_args-Keeps VERSION cfg (a ∷ []) h =
    dispatch-Keeps VERSION cfg a (λ cfg'. parse_args VERSION cfg' []) (λ s. refused a) (word_of a) h
      (λ cfg' h'. parse_args-Keeps VERSION cfg' [] h') (λ s. _)
parse_args-Keeps VERSION cfg (a ∷ (value ∷ rest)) h =
    dispatch-Keeps VERSION cfg a (λ cfg'. parse_args VERSION cfg' (value ∷ rest))
      (λ s. or_complain a value s (λ cfg'. parse_args VERSION cfg' rest) (set s value cfg))
      (word_of a) h (λ cfg' h'. parse_args-Keeps VERSION cfg' (value ∷ rest) h')
      (λ s.
        or_complain-Keeps a value s (λ cfg'. parse_args VERSION cfg' rest) (set s value cfg)
          (λ cfg' e. parse_args-Keeps VERSION cfg' rest (set-IsRunnable s value cfg h e)))

-- Whatever the command line, a run that `main` starts takes between 1 and 32 samples, with an
-- interval of at most an hour; its limits are the defaults except for the warning and advisory
-- ratios, which are between 1 and 100 percent. Nothing is said of the order of the two ratios.
pub parse_args-IsRunnable :
    (VERSION : Bytes) (args : List Bytes) {cfg : Config}
    → parse_args VERSION default_config args ≡ Parsed.go cfg
    → IsRunnable cfg
parse_args-IsRunnable VERSION args h =
    subst Keeps h (parse_args-Keeps VERSION default_config args default-IsRunnable)
