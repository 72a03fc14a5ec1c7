-- ===== src/Guard/Examples.antt =====
-- Concrete runs of the guard: the theorems at one file system, one sample and one command line each.
use astral_hwmon.Base.{
  ◌≤◌, ◌≡◌, refl, ◌↔◌, Bool, true, false, ◌||◌, Option, none, some, List, [], ◌∷◌, arith, ◌==◌,
  if◌then◌else◌, length, Pin, pin1, index,
}
use mathlib.Core.List.{Permᴰ}
use astral_hwmon.Base.Text.{Bytes, codes, decimal, snprintf}
use astral_hwmon.Base.Scan.{strtol, scan_int}
use astral_hwmon.Driver.Regs.{Frame}
use astral_hwmon.Driver.Regs.Plausible.{IsPlausible}
use astral_hwmon.Guard.Types.{
  guard_ok, guard_crit, Sample, guard_limits_default, Chip, guard_max_chips,
}
use astral_hwmon.Guard.Sysfs.{
  Sysfs, first_line, attr_path, read_attr, read_int_attr, in_bounds, whole_number, strcmp_le,
  str_eq, insert, qsort, chip_of, entry_chip, scan_entries, find_chips, read_sample, cut_line,
}
use astral_hwmon.Guard.Sysfs.Attr.{attr_text, read_int_attr-attr_text}
use astral_hwmon.Guard.Sysfs.Exposed.{
  in_file, curr_file, Exposes, sample_of, read_sample-shown, IsReading, read_sample-IsReading,
}
use astral_hwmon.Guard.Sysfs.Order.{mounted, all_chips, find_chips-Permᴰ}
use astral_hwmon.Guard.Eval.{guard_eval}
use astral_hwmon.Guard.Eval.Levels.{worst_of, guard_eval-worst_of}
use astral_hwmon.Guard.Eval.Findings.{findings, guard_eval-few}
use astral_hwmon.Guard.Eval.Alarms.{guard_eval-Means, Critical, Warning}
use astral_hwmon.Guard.Options.{Config, default_config, Parsed, parse_args, word_of, set, parse_int}
use astral_hwmon.Guard.Options.Accepted.{IsRunnable, parse_args-IsRunnable}
use astral_hwmon.Guard.Main.{main, check_chips}
use astral_hwmon.Guard.Main.Worst.{levels, IsWorst, check_chips-IsWorst}
use astral_hwmon.Guard.Main.Silence.{Shows, EachChip, SomeChip, main-ok_iff, main-crit_iff}

abbrev healthy_frame : Frame
healthy_frame = record { millivolts = λ _. 12000; milliamps = λ _. 8000 }

-- The same frame with the first pin at 10 A.
abbrev hot : Sample
hot = record { mv = λ _. 12000; ma = λ p. if index p == 0 then 10000 else 8000 }

abbrev blank : Sample
blank = record { mv = λ _. 0; ma = λ _. 0 }

means_example :
    ((guard_eval (hot ∷ hot ∷ []) guard_limits_default).level ≡ guard_crit)
    ↔ Critical guard_limits_default (hot ∷ hot ∷ [])
means_example = guard_eval-Means guard_limits_default hot (hot ∷ []) guard_crit

findings_example : guard_eval (hot ∷ hot ∷ []) guard_limits_default ≡ record {
  level = worst_of (findings guard_limits_default 12000 (hot ∷ hot ∷ []));
  f = findings guard_limits_default 12000 (hot ∷ hot ∷ []);
}
findings_example = guard_eval-worst_of guard_limits_default hot (hot ∷ [])

few_example : length (guard_eval (hot ∷ hot ∷ []) guard_limits_default).f ≤ 14
few_example = guard_eval-few guard_limits_default (hot ∷ hot ∷ [])

-- A file system in which every voltage, every current and every interval that is asked for is there.
abbrev is_voltage : Bytes → Bool
is_voltage [] = false
is_voltage (c ∷ s) = if c == b'/' then starts_in s || is_voltage s else is_voltage s
  where
    starts_in : Bytes → Bool
    starts_in [] = false
    starts_in (c ∷ s) = c == b'i'

abbrev healthy_file : Bytes → Option Bytes
healthy_file path = some (attr_text (if is_voltage path then 12000 else 8000))

abbrev no_directory : Bytes → Option (List Bytes)
no_directory path = none

abbrev here : Chip
here = record { path = codes "x"; update_interval_ms = 200 }

abbrev shown_files : Sysfs
shown_files = mounted healthy_file no_directory

shown_files-Exposes : Exposes shown_files here healthy_frame
unfolding decimal snprintf
shown_files-Exposes = record { in_input = input; curr_input = curr }
  where
    input : (p : Pin) → healthy_file (attr_path (codes "x") (in_file p)) ≡ some (attr_text 12000)
    input pin1 = refl
    input p = refl

    curr : (p : Pin) → healthy_file (attr_path (codes "x") (curr_file p)) ≡ some (attr_text 8000)
    curr pin1 = refl
    curr p = refl

healthy-IsPlausible : IsPlausible healthy_frame
healthy-IsPlausible p = record {
  mv_ge_min = omega arith;
  mv_le_max = omega arith;
  ma_le_max = omega arith;
}

shown_example : read_sample shown_files here blank ≡ some (sample_of healthy_frame)
shown_example =
    read_sample-shown shown_files here healthy_frame shown_files-Exposes healthy-IsPlausible blank

shown_sample : read_sample shown_files here blank ≡ some (sample_of healthy_frame)
shown_sample =
    read_sample-shown shown_files here healthy_frame shown_files-Exposes healthy-IsPlausible blank

sample_example : IsReading shown_files here (sample_of healthy_frame) pin1
sample_example = read_sample-IsReading shown_files here blank pin1 shown_sample

in0_text : healthy_file (attr_path (codes "x") (codes "in0_input")) ≡ some (attr_text 12000)
unfolding decimal snprintf
in0_text = refl

in0_short : length (decimal 12000) ≤ 30
unfolding decimal
in0_short = omega arith

attr_example : read_int_attr shown_files (codes "x") (codes "in0_input") 6000 13000 ≡ some 12000
attr_example =
    read_int_attr-attr_text shown_files (codes "x") (codes "in0_input") 6000 13000 12000 in0_text
      in0_short (omega arith)

-- Two chips, which readdir lists in either order.
abbrev hwmon_file : Bytes → Option Bytes
hwmon_file path = some (codes "astral12vhpwr\n")

abbrev root : Bytes
root = codes "r"

two_chips :
    length (
      all_chips
        (mounted hwmon_file (λ _. some (codes "b" ∷ codes "a" ∷ [])))
        root
        (codes "b" ∷ codes "a" ∷ []))
    ≤ guard_max_chips
unfolding entry_chip snprintf read_attr first_line cut_line str_eq strcmp_le
two_chips = omega arith

order_example :
    (find_chips (mounted hwmon_file (λ _. some (codes "b" ∷ codes "a" ∷ []))) root guard_max_chips
      ≡ some (
          qsort (
            all_chips
              (mounted hwmon_file (λ _. some (codes "b" ∷ codes "a" ∷ [])))
              root
              (codes "b" ∷ codes "a" ∷ []))))
    × (find_chips (mounted hwmon_file (λ _. some (codes "a" ∷ codes "b" ∷ []))) root guard_max_chips
        ≡ find_chips
            (mounted hwmon_file (λ _. some (codes "b" ∷ codes "a" ∷ [])))
            root
            guard_max_chips)
order_example =
    find_chips-Permᴰ hwmon_file (λ _. some (codes "b" ∷ codes "a" ∷ []))
      (λ _. some (codes "a" ∷ codes "b" ∷ [])) root guard_max_chips refl refl (Permᴰ.swap refl refl)
      two_chips

abbrev two_samples : List Bytes
two_samples = codes "--samples" ∷ codes "2" ∷ codes "--quiet" ∷ []

abbrev two_samples_config : Config
two_samples_config = record default_config { samples = 2; quiet = true }

two_samples_accepted : parse_args [] default_config two_samples ≡ Parsed.go two_samples_config
unfolding parse_args word_of set parse_int str_eq strcmp_le whole_number strtol scan_int in_bounds
two_samples_accepted = refl

options_example : IsRunnable two_samples_config
options_example = parse_args-IsRunnable [] two_samples two_samples_accepted

worst_example :
    IsWorst
      (levels default_config (λ i k. shown_files) blank 0 (here ∷ []))
      (check_chips default_config (λ i k. shown_files) blank (some (here ∷ []))).exit
worst_example = check_chips-IsWorst default_config (λ i k. shown_files) blank here []

-- One chip under /sys, and the files that its samples read.
abbrev one_chip : Sysfs
one_chip = mounted hwmon_file (λ _. some (codes "hwmon3" ∷ []))

abbrev hwmon3 : Chip
hwmon3 = record { path = codes "/sys/class/hwmon/hwmon3"; update_interval_ms = 200 }

one_chip_found : find_chips one_chip (codes "/sys") guard_max_chips ≡ some (hwmon3 ∷ [])
unfolding find_chips qsort insert scan_entries entry_chip chip_of snprintf read_attr read_int_attr
    whole_number strtol scan_int first_line cut_line str_eq strcmp_le
one_chip_found = refl

quiet_example :
    ((main [] one_chip (λ i k. shown_files) blank two_samples).exit ≡ guard_ok)
    ↔ EachChip
        (λ i c.
          Shows two_samples_config
            (λ k. shown_files)
            blank
            c
            (λ ss. (¬ Critical guard_limits_default ss) × (¬ Warning guard_limits_default ss)))
        0
        (hwmon3 ∷ [])
quiet_example =
    main-ok_iff [] one_chip (λ i k. shown_files) blank two_samples two_samples_accepted
      one_chip_found

alarm_example :
    ((main [] one_chip (λ i k. shown_files) blank two_samples).exit ≡ guard_crit)
    ↔ SomeChip
        (λ i c. Shows two_samples_config (λ k. shown_files) blank c (Critical guard_limits_default))
        0
        (hwmon3 ∷ [])
alarm_example =
    main-crit_iff [] one_chip (λ i k. shown_files) blank two_samples two_samples_accepted
      one_chip_found
