-- ===== src/Guard/Main/Output.antt =====
-- What a run prints: the JSON array of its reports, and the silence of a quiet run.
use astral_hwmon.Base.{
  ℕ, suc, ◌≡◌, refl, sym, ap, ◌∙◌, ◌≢◌, ◌↔◌, Bool, true, false, not, some, List, [], ◌∷◌, ◌++◌,
  ◌==◌, if◌then◌else◌, arith, All,
}
use mathlib.Core.Path.{ap₂}
use mathlib.Core.List.{append_assoc, append-nil}
use astral_hwmon.Base.Text.{Bytes, codes}
use astral_hwmon.Guard.Types.{
  Level, guard_ok, guard_warn, guard_crit, guard_unknown, guard_note, level_code, same_level,
  Limits, Verdict, Chip, Sample,
}
use astral_hwmon.Guard.Sysfs.{Sysfs}
use astral_hwmon.Guard.Report.{guard_level_name, guard_report_json, guard_report_text}
use astral_hwmon.Guard.Options.{Config}
use astral_hwmon.Guard.Main.{Run, verdict_of, printed, sampling_of, chip_loop, started, check_chips}
use astral_hwmon.Guard.Main.Worst.{levels, check_chips-IsWorst, IsWorst-ok_iff}

module _ (cfg : Config) (views : ℕ → ℕ → Sysfs) (stack : Sample) where
  abbrev pub verdict : ℕ → Chip → Verdict
  verdict i c = verdict_of cfg c (sampling_of cfg views stack i c)

  -- What the chips from number `i` on print.
  abbrev pub reports : ℕ → List Chip → Bytes
  reports i [] = []
  reports i (c ∷ cs) = printed cfg (i == 0) c (verdict i c) ++ reports (suc i) cs

  chip_loop-stdout :
      (i : ℕ) (cs : List Chip) (run : Run)
      → (chip_loop cfg views stack i cs run).stdout ≡ run.stdout ++ reports i cs
  unfolding chip_loop
  chip_loop-stdout i [] run = sym (append-nil run.stdout)
  chip_loop-stdout i (c ∷ cs) run =
      chip_loop-stdout (suc i) cs _
      ∙ append_assoc run.stdout (printed cfg (i == 0) c (verdict i c)) (reports (suc i) cs)

  -- The objects of the array, one for each chip.
  abbrev pub object : ℕ → Chip → Bytes
  object i c = guard_report_json c (verdict i c) cfg.lim true

  abbrev pub more_objects : ℕ → List Chip → Bytes
  more_objects i [] = []
  more_objects i (c ∷ cs) = codes ",\n" ++ (object i c ++ more_objects (suc i) cs)

comma_first :
    (c : Chip) (v : Verdict) (lim : Limits)
    → guard_report_json c v lim false ≡ codes ",\n" ++ guard_report_json c v lim true
unfolding guard_report_json
comma_first c v lim = refl

not_first : (i : ℕ) → (suc i == 0) ≡ false
not_first i = ground arith

printed-json :
    (cfg : Config) (first : Bool) (c : Chip) (v : Verdict)
    → cfg.json ≡ true
    → printed cfg first c v ≡ guard_report_json c v cfg.lim first
unfolding printed
printed-json cfg first c v json = rw json refl

module _ (cfg : Config) (views : ℕ → ℕ → Sysfs) (stack : Sample) where
  check_chips-stdout :
      (c : Chip) (cs : List Chip)
      → (check_chips cfg views stack (some (c ∷ cs))).stdout
        ≡ (started cfg).stdout
          ++ reports cfg views stack 0 (c ∷ cs)
          ++ (if cfg.json then codes "\n]\n" else [])
  unfolding check_chips
  check_chips-stdout c cs =
      ap (λ s. s ++ (if cfg.json then codes "\n]\n" else []))
        (chip_loop-stdout cfg views stack 0 (c ∷ cs) (started cfg))

  reports-json :
      cfg.json ≡ true
      → (i : ℕ) (cs : List Chip)
      → reports cfg views stack (suc i) cs ≡ more_objects cfg views stack (suc i) cs
  reports-json json i [] = refl
  reports-json json i (c ∷ cs) =
      ap₂ (λ s t. s ++ t)
        (ap (λ b. printed cfg b c (verdict cfg views stack (suc i) c)) (not_first i)
          ∙ printed-json cfg false c (verdict cfg views stack (suc i) c) json
          ∙ comma_first c (verdict cfg views stack (suc i) c) cfg.lim)
        (reports-json json (suc i) cs)
      ∙ append_assoc (codes ",\n") (object cfg views stack (suc i) c)
          (more_objects cfg views stack (suc (suc i)) cs)

  -- With --json, a run that finds chips prints one array: a bracket, the object of each chip in
  -- order with a comma between two of them and none after the last, and the closing bracket.
  pub check_chips-json :
      (c : Chip) (cs : List Chip)
      → cfg.json ≡ true
      → (check_chips cfg views stack (some (c ∷ cs))).stdout
        ≡ codes "[\n"
          ++ (object cfg views stack 0 c ++ more_objects cfg views stack 1 cs)
          ++ codes "\n]\n"
  check_chips-json c cs json =
      check_chips-stdout c cs
      ∙ ap₂ (λ (s : Bytes) t. s ++ reports cfg views stack 0 (c ∷ cs) ++ t)
          (ap (λ b. if b then codes "[\n" else []) json)
          (ap (λ b. if b then codes "\n]\n" else []) json)
      ∙ ap (λ t. codes "[\n" ++ t ++ codes "\n]\n")
          (ap₂ (λ s t. s ++ t) (printed-json cfg true c (verdict cfg views stack 0 c) json)
            (reports-json json 0 cs))

append_nil_iff : (s t : Bytes) → (s ++ t ≡ []) ↔ ((s ≡ []) × (t ≡ []))
append_nil_iff [] t = ((λ h. (refl, h)), (λ h. h.1))
append_nil_iff (a ∷ s) t = ((λ h. cc), (λ h. cc (h.0)))

unframed :
    (b : Bool) (t : Bytes)
    → b ≡ false
    → (if b then codes "[\n" else []) ++ t ++ (if b then codes "\n]\n" else []) ≡ t
unframed true t h = cc
unframed false t h = append-nil t

named : (l : Level) (rest : Bytes) → guard_level_name (level_code l) ++ rest ≢ []
unfolding guard_level_name
named guard_ok rest h = cc
named guard_warn rest h = cc
named guard_crit rest h = cc
named guard_unknown rest h = cc
named guard_note rest h = cc

report-ne-nil : (c : Chip) (v : Verdict) → guard_report_text c v ≢ []
unfolding guard_report_text
report-ne-nil c v h = named v.level _ h

quiet_text :
    (l : Level) (text : Bytes)
    → text ≢ []
    → ((if not (same_level l guard_ok) then text else []) ≡ []) ↔ (l ≡ guard_ok)
quiet_text guard_ok text h = ((λ e. refl), (λ e. refl))
quiet_text guard_warn text h = ((λ e. absurd (h e)), (λ e. cc))
quiet_text guard_crit text h = ((λ e. absurd (h e)), (λ e. cc))
quiet_text guard_unknown text h = ((λ e. absurd (h e)), (λ e. cc))
quiet_text guard_note text h = ((λ e. absurd (h e)), (λ e. cc))

module _ (cfg : Config) (views : ℕ → ℕ → Sysfs) (stack : Sample) (text_mode : cfg.json ≡ false)
    (quiet : cfg.quiet ≡ true) where
  printed-nil_iff :
      (first : Bool) (c : Chip) (v : Verdict) → (printed cfg first c v ≡ []) ↔ (v.level ≡ guard_ok)
  unfolding printed
  printed-nil_iff first c v =
      rw (text_mode, quiet) (quiet_text v.level (guard_report_text c v) (report-ne-nil c v))

  reports-nil_iff :
      (i : ℕ) (cs : List Chip)
      → (reports cfg views stack i cs ≡ []) ↔ All (λ l. l ≡ guard_ok) (levels cfg views stack i cs)
  reports-nil_iff i [] = ((λ h. _), (λ h. refl))
  reports-nil_iff i (c ∷ cs) =
      let here = printed-nil_iff (i == 0) c (verdict cfg views stack i c) in
      let later = reports-nil_iff (suc i) cs in
      let both =
        append_nil_iff (printed cfg (i == 0) c (verdict cfg views stack i c))
          (reports cfg views stack (suc i) cs) in
      (
        (λ h. let (a, b) = both.0 h in (here.0 a, later.0 b)),
        (λ h. both.1 (here.1 h.0, later.1 h.1)),
      )

  -- With --quiet and without --json, a run that finds chips prints nothing exactly when it exits OK.
  pub check_chips-quiet_iff :
      (c : Chip) (cs : List Chip)
      → ((check_chips cfg views stack (some (c ∷ cs))).stdout ≡ [])
        ↔ ((check_chips cfg views stack (some (c ∷ cs))).exit ≡ guard_ok)
  check_chips-quiet_iff c cs =
      let worst =
        IsWorst-ok_iff (levels cfg views stack 0 (c ∷ cs))
          (check_chips cfg views stack (some (c ∷ cs))).exit
          (check_chips-IsWorst cfg views stack c cs) in
      let silent = reports-nil_iff 0 (c ∷ cs) in
      ((λ h. worst.1 (silent.0 (sym only ∙ h))), (λ h. only ∙ silent.1 (worst.0 h)))
    where
      only :
          (check_chips cfg views stack (some (c ∷ cs))).stdout ≡ reports cfg views stack 0 (c ∷ cs)
      only =
          check_chips-stdout cfg views stack c cs
          ∙ unframed cfg.json (reports cfg views stack 0 (c ∷ cs)) text_mode
