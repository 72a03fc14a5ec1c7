-- ===== src/Guard/Main.antt =====
-- guard/guard_main.c: the sampling of each chip and the exit code. The file system may
-- change between reads, so each sample of each chip has a view of it. A run is what it prints on
-- each stream, the naps that it takes and its exit code.
pub mod Worst
pub mod Silence
pub mod Output
pub mod Naps
use astral_hwmon.Base.{
  ℕ, zero, suc, ◌-◌, Bool, true, false, ◌||◌, not, Option, none, some, List, [], ◌∷◌, ◌++◌, ltb,
  ◌==◌, if◌then◌else◌, take,
}
use astral_hwmon.Base.Text.{Bytes, codes, snprintf, texts}
use astral_hwmon.Guard.Types.{
  Level, guard_ok, guard_unknown, same_level, guard_severity, Rule, Finding, Verdict, Chip, Sample,
  guard_max_chips, guard_chip_name,
}
use astral_hwmon.Guard.Sysfs.{Sysfs, find_chips, read_sample}
use astral_hwmon.Guard.Eval.{guard_eval}
use astral_hwmon.Guard.Report.{guard_report_text, guard_report_json}
use astral_hwmon.Guard.Options.{Config, default_config, Parsed, parse_args}

pub record Run : Type 0 where
  pub stdout : Bytes
  pub stderr : Bytes
  pub naps : List ℕ
  pub exit : Level

abbrev pub nap : ℕ → List ℕ
nap ms = if ms == 0 then [] else ms ∷ []

-- What the loop over the samples leaves: `ok`, the samples that were read, and the naps.
pub record Sampling : Type 0 where
  pub ok : Bool
  pub s : List Sample
  pub naps : List ℕ

-- After sample `k`, where `more` says that `k + 1 < samples`.
abbrev pub after_read : Option Sample → Bool → ℕ → Sampling → Sampling
after_read none more gap rest = record { ok = false; s = []; naps = [] }
after_read (some x) more gap rest = record {
  ok = rest.ok;
  s = x ∷ rest.s;
  naps = (if more then nap gap else []) ++ rest.naps;
}

-- The rounds from `k` on. `view k` is the file system as round `k` reads it, `stack` what `s[k]` held before.
unfoldable pub sample_loop : (ℕ → Sysfs) → Sample → Chip → ℕ → ℕ → ℕ → Sampling
sample_loop view stack c gap k zero = record { ok = true; s = []; naps = [] }
sample_loop view stack c gap k (suc left) =
    after_read (read_sample (view k) c stack) (ltb 0 left) gap
      (sample_loop view stack c gap (suc k) left)

-- The finding that stands for a chip that could not be read.
abbrev pub unreadable : Chip → Finding
unreadable c = record {
  level = guard_unknown;
  rule = Rule.read;
  pin = 0;
  value = 0;
  detail = snprintf 96 (codes "could not read all channels from " ++ take 56 c.path);
}

unfoldable pub verdict_of : Config → Chip → Sampling → Verdict
verdict_of cfg c sampling =
    if sampling.ok
    then guard_eval sampling.s cfg.lim
    else record { level = guard_unknown; f = unreadable c ∷ [] }

abbrev pub gap_of : Config → Chip → ℕ
gap_of cfg c = if ltb 0 cfg.interval then cfg.interval else c.update_interval_ms

unfoldable pub sampled : Config → (ℕ → Sysfs) → Sample → Chip → Sampling
unfolding sample_loop
sampled cfg view stack c = sample_loop view stack c (gap_of cfg c) 0 cfg.samples

-- `if (guard_severity(level) > guard_severity(worst)) worst = level`
unfoldable pub worse : Level → Level → Level
unfolding guard_severity
worse worst level = if ltb (guard_severity worst) (guard_severity level) then level else worst

-- What is printed of a chip; `first` is `!printed`, which in a JSON run says that it is the first one.
unfoldable pub printed : Config → Bool → Chip → Verdict → Bytes
printed cfg first c v =
    if cfg.json
    then guard_report_json c v cfg.lim first
    else if not cfg.quiet || not (same_level v.level guard_ok)
    then guard_report_text c v
    else []

abbrev pub sampling_of : Config → (ℕ → ℕ → Sysfs) → Sample → ℕ → Chip → Sampling
sampling_of cfg views stack i c = sampled cfg (views i) stack c

-- The loop over the chips, from number `i` on, with what the rounds so far printed, slept and found.
unfoldable pub chip_loop : Config → (ℕ → ℕ → Sysfs) → Sample → ℕ → List Chip → Run → Run
unfolding verdict_of sampled worse printed
chip_loop cfg views stack i [] run = run
chip_loop cfg views stack i (c ∷ cs) run =
    let sampling = sampling_of cfg views stack i c in
    let v = verdict_of cfg c sampling in
    chip_loop cfg views stack (suc i) cs (record run {
      stdout = run.stdout ++ printed cfg (i == 0) c v;
      naps = run.naps ++ sampling.naps;
      exit = worse run.exit v.level;
    })

abbrev pub failed : Bytes → Run
failed message = record { stdout = []; stderr = message; naps = []; exit = guard_unknown }

abbrev pub started : Config → Run
started cfg = record {
  stdout = if cfg.json then codes "[\n" else [];
  stderr = [];
  naps = [];
  exit = guard_ok;
}

abbrev pub ended : Config → Run → Run
ended cfg run = record run { stdout = run.stdout ++ (if cfg.json then codes "\n]\n" else []) }

-- What `main` does with the result of the search.
unfoldable pub check_chips : Config → (ℕ → ℕ → Sysfs) → Sample → Option (List Chip) → Run
unfolding chip_loop
check_chips cfg views stack none =
    failed (texts (codes "UNKNOWN cannot read " ∷ cfg.sysfs_root ∷ codes "/class/hwmon\n" ∷ []))
check_chips cfg views stack (some []) = failed (
    texts (
      codes "UNKNOWN no "
      ∷ guard_chip_name
      ∷ codes " chip found - is the astral-hwmon module loaded?\n"
      ∷ []))
check_chips cfg views stack (some (c ∷ cs)) =
    ended cfg (chip_loop cfg views stack 0 (c ∷ cs) (started cfg))

abbrev pub carried_out : Sysfs → (ℕ → ℕ → Sysfs) → Sample → Parsed → Run
carried_out sys views stack (Parsed.stop out err level) = record {
  stdout = out;
  stderr = err;
  naps = [];
  exit = level;
}
carried_out sys views stack (Parsed.go cfg) =
    check_chips cfg views stack (find_chips sys cfg.sysfs_root guard_max_chips)

-- `main`, on the arguments after the program's name. `sys` is the file system as the search reads
-- it, `views i k` as sample `k` of chip `i` does, and `stack` what the samples held at first.
unfoldable pub main : Bytes → Sysfs → (ℕ → ℕ → Sysfs) → Sample → List Bytes → Run
unfolding parse_args check_chips
main VERSION sys views stack args =
    carried_out sys views stack (parse_args VERSION default_config args)
