-- ===== src/Guard/Main/Silence.antt =====
-- What silence means: a run that exits OK has read every sample of every chip and seen no fault, and
-- one that exits CRITICAL has seen one.
use astral_hwmon.Base.{
  ℕ, zero, suc, ◌<◌, ◌≡◌, refl, sym, ap, ◌∙◌, ◌≢◌, ◌↔◌, ◌⊎◌, inl, inr, Bool, true, false, Option,
  none, some, List, [], ◌∷◌, arith, ltb, Bool-cases, length, Any, All,
}
use mathlib.Core.Path.{subst}
use astral_hwmon.Base.Text.{Bytes}
use astral_hwmon.Guard.Types.{Level, guard_ok, guard_crit, guard_unknown, Chip, Sample}
use astral_hwmon.Guard.Sysfs.{Sysfs, read_sample}
use astral_hwmon.Guard.Eval.{guard_eval}
use astral_hwmon.Guard.Eval.Alarms.{Means, guard_eval-Means, Critical, Warning}
use astral_hwmon.Guard.Types.{guard_max_chips}
use astral_hwmon.Guard.Sysfs.{find_chips}
use astral_hwmon.Guard.Options.{Config, default_config, Parsed, parse_args}
use astral_hwmon.Guard.Options.Accepted.{parse_args-IsRunnable}
use astral_hwmon.Guard.Main.{main, carried_out}
use astral_hwmon.Guard.Main.{
  Sampling, after_read, sample_loop, verdict_of, sampled, gap_of, failed, check_chips,
}
use astral_hwmon.Guard.Main.Worst.{levels, check_chips-IsWorst, IsWorst-crit_iff, IsWorst-ok_iff}

-- The samples that the rounds from `k` on read.
abbrev pub Reads : (ℕ → Sysfs) → Sample → Chip → ℕ → List Sample → Type 0
Reads view stack c k [] = Unit
Reads view stack c k (s ∷ ss) =
    (read_sample (view k) c stack ≡ some s) × Reads view stack c (suc k) ss

-- Every round reads its sample, and `P` holds of the samples.
abbrev pub Shows : Config → (ℕ → Sysfs) → Sample → Chip → (List Sample → Type 0) → Type 0
Shows cfg view stack c P =
    (ss : List Sample) × (length ss ≡ cfg.samples) × Reads view stack c 0 ss × P ss

module _ (view : ℕ → Sysfs) (stack : Sample) (c : Chip) (gap : ℕ) where
  after_read-ok :
      (o : Option Sample) (more : Bool) (rest : Sampling)
      → (after_read o more gap rest).ok ≡ true
      → (s : Sample) × (o ≡ some s)
        × (rest.ok ≡ true)
        × ((after_read o more gap rest).s ≡ s ∷ rest.s)
  after_read-ok none more rest h = cc
  after_read-ok (some s) more rest h = (s, refl, h, refl)

  sample_loop-ok :
      (k left : ℕ)
      → (sample_loop view stack c gap k left).ok ≡ true
      → (length (sample_loop view stack c gap k left).s ≡ left)
        × Reads view stack c k (sample_loop view stack c gap k left).s
  unfolding sample_loop
  sample_loop-ok k zero h = (refl, _)
  sample_loop-ok k (suc left) h =
      let (s, reads, rest, e) =
        after_read-ok (read_sample (view k) c stack) (ltb 0 left)
          (sample_loop view stack c gap (suc k) left) h in
      let later = sample_loop-ok (suc k) left rest in
      subst (λ ss. (length ss ≡ suc left) × Reads view stack c k ss) (sym e)
        (ap suc later.0, (reads, later.1))

  sample_loop-Reads :
      (k : ℕ) (ss : List Sample)
      → Reads view stack c k ss
      → ((sample_loop view stack c gap k (length ss)).ok ≡ true)
        × ((sample_loop view stack c gap k (length ss)).s ≡ ss)
  unfolding sample_loop
  sample_loop-Reads k [] h = (refl, refl)
  sample_loop-Reads k (s ∷ ss) h =
      let later = sample_loop-Reads (suc k) ss h.1 in rw h.0 (later.0, ap (◌∷◌ s) later.1)

module _ (cfg : Config) (view : ℕ → Sysfs) (stack : Sample) (c : Chip) where
  sampled-ok :
      (sampled cfg view stack c).ok ≡ true
      → Shows cfg view stack c (λ ss. ss ≡ (sampled cfg view stack c).s)
  unfolding sampled
  sampled-ok h =
      let all_read = sample_loop-ok view stack c (gap_of cfg c) 0 cfg.samples h in
      (_, all_read.0, all_read.1, refl)

  sampled-Reads :
      (ss : List Sample)
      → length ss ≡ cfg.samples
      → Reads view stack c 0 ss
      → ((sampled cfg view stack c).ok ≡ true) × ((sampled cfg view stack c).s ≡ ss)
  unfolding sampled
  sampled-Reads ss n reads = rw (sym n) (sample_loop-Reads view stack c (gap_of cfg c) 0 ss reads)

  verdict_of-readable :
      (sampling : Sampling)
      → sampling.ok ≡ true
      → verdict_of cfg c sampling ≡ guard_eval sampling.s cfg.lim
  unfolding verdict_of
  verdict_of-readable sampling h = rw h refl

  verdict_of-unreadable :
      (sampling : Sampling)
      → sampling.ok ≡ false
      → (verdict_of cfg c sampling).level ≡ guard_unknown
  unfolding verdict_of
  verdict_of-unreadable sampling h = rw h refl

  eval_iff :
      (ss : List Sample) (l : Level)
      → 0 < length ss
      → ((guard_eval ss cfg.lim).level ≡ l) ↔ Means cfg.lim ss l
  eval_iff [] l h = absurd (omega arith)
  eval_iff (s ∷ ss) l h = guard_eval-Means cfg.lim s ss l

  -- The level of a chip, other than UNKNOWN, is what its samples mean.
  verdict_iff :
      0 < cfg.samples
      → (l : Level) → l ≢ guard_unknown
      → ((verdict_of cfg c (sampled cfg view stack c)).level ≡ l)
        ↔ Shows cfg view stack c (λ ss. Means cfg.lim ss l)
  verdict_iff some_sample l known = (
    (λ e. elim (Bool-cases (sampled cfg view stack c).ok) [
      | inr failed ↦
          absurd (known (sym e ∙ verdict_of-unreadable (sampled cfg view stack c) failed))
      | inl ok ↦
          let (ss, n, reads, same) = sampled-ok ok in
          (
            ss,
            n,
            reads,
            (eval_iff ss l (rw n some_sample)).0 (
                ap (λ ss. (guard_eval ss cfg.lim).level) same
                ∙ sym (ap (λ v. v.level) (verdict_of-readable (sampled cfg view stack c) ok))
                ∙ e),
          )
    ]),
    (λ (ss, n, reads, means).
        let (ok, same) = sampled-Reads ss n reads in
        ap (λ v. v.level) (verdict_of-readable (sampled cfg view stack c) ok)
        ∙ ap (λ ss. (guard_eval ss cfg.lim).level) same
        ∙ (eval_iff ss l (rw n some_sample)).1 means),
  )

-- A property of each chip, and of some chip, of those numbered from `i` on.
abbrev pub EachChip : (ℕ → Chip → Type 0) → ℕ → List Chip → Type 0
EachChip P i [] = Unit
EachChip P i (c ∷ cs) = P i c × EachChip P (suc i) cs

abbrev pub SomeChip : (ℕ → Chip → Type 0) → ℕ → List Chip → Type 0
SomeChip P i [] = ⊥
SomeChip P i (c ∷ cs) = P i c ⊎ SomeChip P (suc i) cs

module _ (cfg : Config) (views : ℕ → ℕ → Sysfs) (stack : Sample)
    (some_sample : 0 < cfg.samples) where
  abbrev Is : Level → ℕ → Chip → Type 0
  Is l i c = Shows cfg (views i) stack c (λ ss. Means cfg.lim ss l)

  levels-EachChip :
      (l : Level)
      → l ≢ guard_unknown
      → (i : ℕ) (cs : List Chip)
      → All (λ m. m ≡ l) (levels cfg views stack i cs) ↔ EachChip (Is l) i cs
  levels-EachChip l known i [] = ((λ h. h), (λ h. h))
  levels-EachChip l known i (c ∷ cs) =
      let here = verdict_iff cfg (views i) stack c some_sample l known in
      let later = levels-EachChip l known (suc i) cs in
      ((λ h. (here.0 h.0, later.0 h.1)), (λ h. (here.1 h.0, later.1 h.1)))

  levels-SomeChip :
      (l : Level)
      → l ≢ guard_unknown
      → (i : ℕ) (cs : List Chip)
      → Any (λ m. m ≡ l) (levels cfg views stack i cs) ↔ SomeChip (Is l) i cs
  levels-SomeChip l known i [] = ((λ h. h), (λ h. h))
  levels-SomeChip l known i (c ∷ cs) =
      let here = verdict_iff cfg (views i) stack c some_sample l known in
      let later = levels-SomeChip l known (suc i) cs in
      (
        (λ h. elim h [ inl e ↦ inl (here.0 e) | inr k ↦ inr (later.0 k) ]),
        (λ h. elim h [ inl e ↦ inl (here.1 e) | inr k ↦ inr (later.1 k) ]),
      )

-- When the run on these chips exits OK.
pub check_chips-ok_iff :
    (cfg : Config) (views : ℕ → ℕ → Sysfs) (stack : Sample) (c : Chip) (cs : List Chip)
    → 0 < cfg.samples
    → ((check_chips cfg views stack (some (c ∷ cs))).exit ≡ guard_ok)
      ↔ EachChip
          (λ i c.
            Shows cfg (views i) stack c (λ ss. (¬ Critical cfg.lim ss) × (¬ Warning cfg.lim ss)))
          0
          (c ∷ cs)
check_chips-ok_iff cfg views stack c cs some_sample =
    let levels_ok =
      IsWorst-ok_iff (levels cfg views stack 0 (c ∷ cs)) _
        (check_chips-IsWorst cfg views stack c cs) in
    let chips_ok = levels-EachChip cfg views stack some_sample guard_ok (λ e. cc) 0 (c ∷ cs) in
    ((λ e. chips_ok.0 (levels_ok.0 e)), (λ h. levels_ok.1 (chips_ok.1 h)))

-- When the run on these chips exits CRITICAL.
pub check_chips-crit_iff :
    (cfg : Config) (views : ℕ → ℕ → Sysfs) (stack : Sample) (c : Chip) (cs : List Chip)
    → 0 < cfg.samples
    → ((check_chips cfg views stack (some (c ∷ cs))).exit ≡ guard_crit)
      ↔ SomeChip (λ i c. Shows cfg (views i) stack c (Critical cfg.lim)) 0 (c ∷ cs)
check_chips-crit_iff cfg views stack c cs some_sample =
    let levels_crit =
      IsWorst-crit_iff (levels cfg views stack 0 (c ∷ cs)) _
        (check_chips-IsWorst cfg views stack c cs) in
    let chips_crit = levels-SomeChip cfg views stack some_sample guard_crit (λ e. cc) 0 (c ∷ cs) in
    ((λ e. chips_crit.0 (levels_crit.0 e)), (λ h. levels_crit.1 (chips_crit.1 h)))

module _ (VERSION : Bytes) (sys : Sysfs) (views : ℕ → ℕ → Sysfs) (stack : Sample)
    (args : List Bytes) {cfg : Config} {c : Chip} {cs : List Chip}
    (accepted : parse_args VERSION default_config args ≡ Parsed.go cfg)
    (found : find_chips sys cfg.sysfs_root guard_max_chips ≡ some (c ∷ cs)) where
  main-exit :
      (main VERSION sys views stack args).exit ≡ (check_chips cfg views stack (some (c ∷ cs))).exit
  unfolding main
  main-exit =
      ap (λ p. (carried_out sys views stack p).exit) accepted
      ∙ ap (λ o. (check_chips cfg views stack o).exit) found

  -- Where the command line is accepted and some chip is found, `main` exits OK exactly when every
  -- sample of every chip is read and no chip shows a critical fault or a warning in all its samples.
  pub main-ok_iff :
      ((main VERSION sys views stack args).exit ≡ guard_ok)
      ↔ EachChip
          (λ i c.
            Shows cfg (views i) stack c (λ ss. (¬ Critical cfg.lim ss) × (¬ Warning cfg.lim ss)))
          0
          (c ∷ cs)
  main-ok_iff =
      rw main-exit
        (check_chips-ok_iff cfg views stack c cs (parse_args-IsRunnable VERSION args accepted).0.0)

  -- Where the command line is accepted and some chip is found, `main` exits CRITICAL exactly when
  -- some chip has every sample read and one critical fault in all of them, whatever becomes of the other chips.
  pub main-crit_iff :
      ((main VERSION sys views stack args).exit ≡ guard_crit)
      ↔ SomeChip (λ i c. Shows cfg (views i) stack c (Critical cfg.lim)) 0 (c ∷ cs)
  main-crit_iff =
      rw main-exit (
        check_chips-crit_iff cfg views stack c cs (parse_args-IsRunnable VERSION args accepted).0.0)
