-- ===== src/Guard/Main/Worst.antt =====
-- The exit code of a run is the worst of the levels of its chips, by severity.
use astral_hwmon.Base.{
  ℕ, suc, ◌≤◌, ◌≡◌, refl, sym, ap, ◌∙◌, ◌↔◌, ◌⊎◌, inl, inr, some, List, [], ◌∷◌, foldl, arith, Any,
  All,
}
use mathlib.Core.Path.{subst}
use astral_hwmon.Guard.Types.{
  Level, guard_ok, guard_warn, guard_crit, guard_unknown, guard_note, guard_severity, Chip, Sample,
}
use astral_hwmon.Guard.Sysfs.{Sysfs}
use astral_hwmon.Guard.Options.{Config}
use astral_hwmon.Guard.Main.{Run, verdict_of, worse, sampling_of, chip_loop, started, check_chips}

-- How bad a level is.
abbrev pub rank : Level → ℕ
rank guard_ok = 0
rank guard_note = 1
rank guard_warn = 2
rank guard_unknown = 3
rank guard_crit = 4

guard_severity-rank : (l : Level) → guard_severity l ≡ rank l
unfolding guard_severity
guard_severity-rank guard_ok = refl
guard_severity-rank guard_note = refl
guard_severity-rank guard_warn = refl
guard_severity-rank guard_unknown = refl
guard_severity-rank guard_crit = refl

-- The level of chip `i` in a run.
abbrev pub level_of : Config → (ℕ → ℕ → Sysfs) → Sample → ℕ → Chip → Level
level_of cfg views stack i c = (verdict_of cfg c (sampling_of cfg views stack i c)).level

-- The levels of chips that are numbered from `i` on.
abbrev pub levels : Config → (ℕ → ℕ → Sysfs) → Sample → ℕ → List Chip → List Level
levels cfg views stack i [] = []
levels cfg views stack i (c ∷ cs) = level_of cfg views stack i c ∷ levels cfg views stack (suc i) cs

chip_loop-exit :
    (cfg : Config) (views : ℕ → ℕ → Sysfs) (stack : Sample) (i : ℕ) (cs : List Chip) (run : Run)
    → (chip_loop cfg views stack i cs run).exit ≡ foldl worse run.exit (levels cfg views stack i cs)
unfolding chip_loop
chip_loop-exit cfg views stack i [] run = refl
chip_loop-exit cfg views stack i (c ∷ cs) run = chip_loop-exit cfg views stack (suc i) cs _

-- No level is worse than `l`.
abbrev pub NoneWorse : Level → List Level → Type 0
NoneWorse l ls = All (λ m. rank m ≤ rank l) ls

worse-left : (l m : Level) → rank l ≤ rank (worse l m)
unfolding worse
worse-left l m = rw (guard_severity-rank l, guard_severity-rank m) (ground arith)

worse-right : (l m : Level) → rank m ≤ rank (worse l m)
unfolding worse
worse-right l m = rw (guard_severity-rank l, guard_severity-rank m) (ground arith)

foldl-worse-le : (l : Level) (ls : List Level) → rank l ≤ rank (foldl worse l ls)
foldl-worse-le l [] = omega arith
foldl-worse-le l (m ∷ ls) = omega (arith, worse-left l m, foldl-worse-le (worse l m) ls)

foldl-NoneWorse : (l : Level) (ls : List Level) → NoneWorse (foldl worse l ls) ls
foldl-NoneWorse l [] = _
foldl-NoneWorse l (m ∷ ls) =
    (omega (arith, worse-right l m, foldl-worse-le (worse l m) ls), foldl-NoneWorse (worse l m) ls)

worse_among : (l m : Level) → (worse l m ≡ l) ⊎ (worse l m ≡ m)
unfolding worse
worse_among l m = ground arith

foldl-among :
    (l : Level) (ls : List Level) → (foldl worse l ls ≡ l) ⊎ Any (λ m. m ≡ foldl worse l ls) ls
foldl-among l [] = inl refl
foldl-among l (m ∷ ls) = elim (foldl-among (worse l m) ls) [
  | inr later ↦ inr (inr later)
  | inl e ↦ elim (worse_among l m) [ inl old ↦ inl (e ∙ old) | inr new ↦ inr (inl (sym (e ∙ new))) ]
]

rank_zero : (l : Level) → rank l ≤ 0 → l ≡ guard_ok
rank_zero guard_ok h = refl
rank_zero guard_warn h = absurd (omega arith)
rank_zero guard_crit h = absurd (omega arith)
rank_zero guard_unknown h = absurd (omega arith)
rank_zero guard_note h = absurd (omega arith)

-- The worst of some levels.
abbrev pub IsWorst : List Level → Level → Type 0
IsWorst ls w = NoneWorse w ls × Any (λ l. l ≡ w) ls

foldl-IsWorst : (l : Level) (ls : List Level) → IsWorst (l ∷ ls) (foldl worse guard_ok (l ∷ ls))
foldl-IsWorst l ls =
    let most = foldl-NoneWorse guard_ok (l ∷ ls) in
    (
      most,
      elim (foldl-among guard_ok (l ∷ ls)) [
        | inr one ↦ one
        | inl e ↦ inl (rank_zero l (omega (arith, most.0, ap rank e)) ∙ sym e)
      ],
    )

check_chips-exit :
    (cfg : Config) (views : ℕ → ℕ → Sysfs) (stack : Sample) (c : Chip) (cs : List Chip)
    → (check_chips cfg views stack (some (c ∷ cs))).exit
      ≡ foldl worse guard_ok (levels cfg views stack 0 (c ∷ cs))
unfolding check_chips
check_chips-exit cfg views stack c cs = chip_loop-exit cfg views stack 0 (c ∷ cs) (started cfg)

-- Where any chip is found, the exit code of the run is the level of one of the chips, and no chip's
-- level ranks higher: the ranks are those of OK, WARNING, UNKNOWN and CRITICAL in this order, so a
-- chip that cannot be read hides no CRITICAL of another.
pub check_chips-IsWorst :
    (cfg : Config) (views : ℕ → ℕ → Sysfs) (stack : Sample) (c : Chip) (cs : List Chip)
    → IsWorst (levels cfg views stack 0 (c ∷ cs)) (check_chips cfg views stack (some (c ∷ cs))).exit
check_chips-IsWorst cfg views stack c cs =
    subst (IsWorst (levels cfg views stack 0 (c ∷ cs)))
      (sym (check_chips-exit cfg views stack c cs))
      (foldl-IsWorst (level_of cfg views stack 0 c) (levels cfg views stack 1 cs))

rank_top : (l : Level) → rank guard_crit ≤ rank l → l ≡ guard_crit
rank_top guard_ok h = absurd (omega arith)
rank_top guard_warn h = absurd (omega arith)
rank_top guard_crit h = refl
rank_top guard_unknown h = absurd (omega arith)
rank_top guard_note h = absurd (omega arith)

All-at {ℓ} :
    {A : Type ℓ} {P Q : A → Type 0} (ls : List A) → All P ls → Any Q ls → (l : A) × P l × Q l
All-at [] h none_there = elim none_there [ ]
All-at (l ∷ ls) h (inl q) = (l, h.0, q)
All-at (l ∷ ls) h (inr k) = All-at ls h.1 k

-- Worst levels at the two ends of the scale.
pub IsWorst-crit_iff :
    (ls : List Level) (w : Level) → IsWorst ls w → (w ≡ guard_crit) ↔ Any (λ l. l ≡ guard_crit) ls
IsWorst-crit_iff ls w worst = (
  (λ e. subst (λ w. Any (λ l. l ≡ w) ls) e worst.1),
  (λ one. let (l, le, e) = All-at ls worst.0 one in rank_top w (subst (λ l. rank l ≤ rank w) e le)),
)

pub IsWorst-ok_iff :
    (ls : List Level) (w : Level) → IsWorst ls w → (w ≡ guard_ok) ↔ All (λ l. l ≡ guard_ok) ls
IsWorst-ok_iff ls w worst = (
  (λ e. all_zero ls (subst (λ w. NoneWorse w ls) e worst.0)),
  (λ every. let (l, e, same) = All-at ls every worst.1 in sym same ∙ e),
)
  where
    all_zero : (ls : List Level) → NoneWorse guard_ok ls → All (λ l. l ≡ guard_ok) ls
    all_zero [] h = _
    all_zero (l ∷ ls) h = (rank_zero l h.0, all_zero ls h.1)
