-- ===== src/Guard/Eval/Alarms.antt =====
-- The level of a verdict, as a statement about the readings: what has to hold in every sample.
use astral_hwmon.Base.{
  ℕ, zero, suc, ◌+◌, ◌*◌, ◌≤◌, ◌<◌, ◌≡◌, refl, ◌↔◌, ◌⊎◌, inl, inr, Bool, true, false, ◌||◌, List,
  [], ◌∷◌, arith, if◌then◌else◌, tests, Bool-cases, All, all, Pin, pin1, pin2, pin3, pin4, pin5,
  pin6,
}
use astral_hwmon.Guard.Types.{
  Level, guard_ok, guard_warn, guard_crit, guard_note, guard_unknown, Sample, Limits,
}
use astral_hwmon.Guard.Eval.{guard_eval}
use astral_hwmon.Guard.Tally.{highest}
use astral_hwmon.Guard.Eval.Counts.{at_crit, at_warn, is_open, is_uneven, is_sagging}
use astral_hwmon.Guard.Eval.Extremes.{
  lowest-le, lowest_attained, le-highest, highest_attained, total_ma-sum,
}
use astral_hwmon.Guard.Eval.Levels.{any_pin, crit_condition, warn_condition, guard_eval-level}

-- The current through the connector.
abbrev pub connector_ma : Sample → ℕ
connector_ma s = s.ma pin1 + s.ma pin2 + s.ma pin3 + s.ma pin4 + s.ma pin5 + s.ma pin6

-- A pin has stopped conducting while the connector is loaded.
abbrev pub OpenPin : Limits → Pin → Sample → Type 0
OpenPin lim p s = (lim.open_gate_ma ≤ connector_ma s) × (s.ma p < lim.open_pin_ma)

-- Under load some pin carries less than `pct` percent of another.
abbrev pub Uneven : Limits → ℕ → Sample → Type 0
Uneven lim pct s =
    (lim.ratio_gate_ma ≤ connector_ma s) × ((p : Pin) × (q : Pin) × (s.ma p * 100 < s.ma q * pct))

-- Some pin is below a voltage floor.
abbrev pub Sagging : ℕ → Sample → Type 0
Sagging mv s = (p : Pin) × (s.mv p < mv)

-- The faults that a run of samples shows, each of them in every sample.
pub data Critical (lim : Limits) (ss : List Sample) : Type 0 where
  open_pin : (p : Pin) → All (OpenPin lim p) ss → Critical lim ss
  over_rating : (p : Pin) → All (λ s. lim.pin_crit_ma ≤ s.ma p) ss → Critical lim ss
  imbalance : All (Uneven lim lim.ratio_crit_pct) ss → Critical lim ss
  undervoltage : All (Sagging lim.mv_crit) ss → Critical lim ss

pub data Warning (lim : Limits) (ss : List Sample) : Type 0 where
  over_warning : (p : Pin) → All (λ s. lim.pin_warn_ma ≤ s.ma p) ss → Warning lim ss
  imbalance : All (Uneven lim lim.ratio_warn_pct) ss → Warning lim ss
  undervoltage : All (Sagging lim.mv_warn) ss → Warning lim ss

is_open_iff : (lim : Limits) (p : Pin) (s : Sample) → (is_open lim p s ≡ true) ↔ OpenPin lim p s
is_open_iff lim p s = ((λ h. ground (arith, total_ma-sum s)), (λ h. ground (arith, total_ma-sum s)))

at_crit_iff :
    (lim : Limits) (p : Pin) (s : Sample) → (at_crit lim p s ≡ true) ↔ (lim.pin_crit_ma ≤ s.ma p)
at_crit_iff lim p s = ((λ h. ground arith), (λ h. ground arith))

at_warn_iff :
    (lim : Limits) (p : Pin) (s : Sample) → (at_warn lim p s ≡ true) ↔ (lim.pin_warn_ma ≤ s.ma p)
at_warn_iff lim p s = ((λ h. ground arith), (λ h. ground arith))

is_sagging_iff : (mv : ℕ) (s : Sample) → (is_sagging mv s ≡ true) ↔ Sagging mv s
is_sagging_iff mv s = (
  (λ h. let (p, e) = lowest_attained s.mv in (p, omega (tests, h))),
  (λ h. omega (tests, lowest-le s.mv h.0)),
)

-- A product that is exceeded stays exceeded when a factor grows.
mul_lt_mul : {a b : ℕ} (c n : ℕ) → a ≤ b → c < a * n → c < b * n
mul_lt_mul c n h less = grind arith

pos_of_mul : (a b : ℕ) → 0 < a * b → 0 < a
pos_of_mul zero b h = absurd (omega arith)
pos_of_mul (suc a) b h = omega arith

is_uneven_iff :
    (lim : Limits) (pct : ℕ) (s : Sample) → (is_uneven lim pct s ≡ true) ↔ Uneven lim pct s
is_uneven_iff lim pct s = (found, shown)
  where
    found : is_uneven lim pct s ≡ true → Uneven lim pct s
    found h =
        let (p, lo) = lowest_attained s.ma in
        let (q, hi) = highest_attained s.ma in
        (ground (arith, total_ma-sum s), (p, q, rw (← lo, ← hi) (ground arith)))

    shown : Uneven lim pct s → is_uneven lim pct s ≡ true
    shown (load, (p, q, less)) =
        let below = mul_lt_mul _ _ (le-highest s.ma q) less in
        ground
          (arith, total_ma-sum s, lowest-le s.ma p, pos_of_mul (highest s.ma) pct (omega arith))

module _ (t : Sample → Bool) (P : Sample → Type 0) (law : (s : Sample) → (t s ≡ true) ↔ P s) where
  all_iff : (ss : List Sample) → (all t ss ≡ true) ↔ All P ss
  all_iff [] = ((λ _. tt), (λ _. refl))
  all_iff (s ∷ ss) =
      let first = law s in
      let rest = all_iff ss in
      (
        (λ h. (first.0 (ground arith), rest.0 (ground arith))),
        (λ h. ground (arith, first.1 h.0, rest.1 h.1)),
      )

any_pin_of : (t : Pin → Bool) (p : Pin) → t p ≡ true → any_pin t ≡ true
any_pin_of t pin1 h = ground arith
any_pin_of t p h = ground arith

or_cases : (a b : Bool) → (a || b) ≡ true → (a ≡ true) ⊎ (b ≡ true)
or_cases true b h = inl refl
or_cases false b h = inr h

any_pin_found : (t : Pin → Bool) → any_pin t ≡ true → (p : Pin) × (t p ≡ true)
any_pin_found t h = elim (or_cases (t pin1) _ h) [
  | inl e ↦ (pin1, e)
  | inr h2 ↦ elim (or_cases (t pin2) _ h2) [
    | inl e ↦ (pin2, e)
    | inr h3 ↦ elim (or_cases (t pin3) _ h3) [
      | inl e ↦ (pin3, e)
      | inr h4 ↦ elim (or_cases (t pin4) _ h4) [
        | inl e ↦ (pin4, e)
        | inr h5 ↦ elim (or_cases (t pin5) _ h5) [ inl e ↦ (pin5, e) | inr e ↦ (pin6, e) ]
      ]
    ]
  ]
]

module _ (lim : Limits) (ss : List Sample) where
  Critical-found : crit_condition lim ss ≡ true → Critical lim ss
  unfolding crit_condition
  Critical-found h = elim (or_cases (any_pin (λ p. all (is_open lim p) ss)) _ h) [
    | inl e ↦
        let (p, held) = any_pin_found (λ p. all (is_open lim p) ss) e in
        open_pin p ((all_iff _ _ (is_open_iff lim p) ss).0 held)
    | inr h2 ↦ elim (or_cases (any_pin (λ p. all (at_crit lim p) ss)) _ h2) [
      | inl e ↦
          let (p, held) = any_pin_found (λ p. all (at_crit lim p) ss) e in
          over_rating p ((all_iff _ _ (at_crit_iff lim p) ss).0 held)
      | inr h3 ↦ elim (or_cases (all (is_uneven lim lim.ratio_crit_pct) ss) _ h3) [
        | inl held ↦
            Critical.imbalance ((all_iff _ _ (is_uneven_iff lim lim.ratio_crit_pct) ss).0 held)
        | inr held ↦ Critical.undervoltage ((all_iff _ _ (is_sagging_iff lim.mv_crit) ss).0 held)
      ]
    ]
  ]

  Critical-shown : Critical lim ss → crit_condition lim ss ≡ true
  unfolding crit_condition
  Critical-shown (open_pin p h) =
      ground (
        arith,
        any_pin_of (λ p. all (is_open lim p) ss) p ((all_iff _ _ (is_open_iff lim p) ss).1 h),
      )
  Critical-shown (over_rating p h) =
      ground (
        arith,
        any_pin_of (λ p. all (at_crit lim p) ss) p ((all_iff _ _ (at_crit_iff lim p) ss).1 h),
      )
  Critical-shown (Critical.imbalance h) =
      ground (arith, (all_iff _ _ (is_uneven_iff lim lim.ratio_crit_pct) ss).1 h)
  Critical-shown (Critical.undervoltage h) =
      ground (arith, (all_iff _ _ (is_sagging_iff lim.mv_crit) ss).1 h)

  Warning-found : warn_condition lim ss ≡ true → Warning lim ss
  unfolding warn_condition
  Warning-found h = elim (or_cases (any_pin (λ p. all (at_warn lim p) ss)) _ h) [
    | inl e ↦
        let (p, held) = any_pin_found (λ p. all (at_warn lim p) ss) e in
        over_warning p ((all_iff _ _ (at_warn_iff lim p) ss).0 held)
    | inr h2 ↦ elim (or_cases (all (is_uneven lim lim.ratio_warn_pct) ss) _ h2) [
      | inl held ↦
          Warning.imbalance ((all_iff _ _ (is_uneven_iff lim lim.ratio_warn_pct) ss).0 held)
      | inr held ↦ Warning.undervoltage ((all_iff _ _ (is_sagging_iff lim.mv_warn) ss).0 held)
    ]
  ]

  Warning-shown : Warning lim ss → warn_condition lim ss ≡ true
  unfolding warn_condition
  Warning-shown (over_warning p h) =
      ground (
        arith,
        any_pin_of (λ p. all (at_warn lim p) ss) p ((all_iff _ _ (at_warn_iff lim p) ss).1 h),
      )
  Warning-shown (Warning.imbalance h) =
      ground (arith, (all_iff _ _ (is_uneven_iff lim lim.ratio_warn_pct) ss).1 h)
  Warning-shown (Warning.undervoltage h) =
      ground (arith, (all_iff _ _ (is_sagging_iff lim.mv_warn) ss).1 h)

-- What a level says of the readings. `guard_eval` gives no other level.
abbrev pub Means : Limits → List Sample → Level → Type 0
Means lim ss guard_crit = Critical lim ss
Means lim ss guard_warn = (¬ Critical lim ss) × Warning lim ss
Means lim ss guard_ok = (¬ Critical lim ss) × (¬ Warning lim ss)
Means lim ss guard_unknown = ⊥
Means lim ss guard_note = ⊥

module _ (lim : Limits) (ss : List Sample) where
  crit_Means : Critical lim ss → (l : Level) → (guard_crit ≡ l) ↔ Means lim ss l
  crit_Means c guard_crit = ((λ _. c), (λ _. refl))
  crit_Means c guard_warn = ((λ e. cc), (λ m. absurd (m.0 c)))
  crit_Means c guard_ok = ((λ e. cc), (λ m. absurd (m.0 c)))
  crit_Means c guard_unknown = ((λ e. cc), (λ m. absurd m))
  crit_Means c guard_note = ((λ e. cc), (λ m. absurd m))

  warn_Means : ¬ Critical lim ss → Warning lim ss → (l : Level) → (guard_warn ≡ l) ↔ Means lim ss l
  warn_Means n w guard_crit = ((λ e. cc), (λ c. absurd (n c)))
  warn_Means n w guard_warn = ((λ _. (n, w)), (λ _. refl))
  warn_Means n w guard_ok = ((λ e. cc), (λ m. absurd (m.1 w)))
  warn_Means n w guard_unknown = ((λ e. cc), (λ m. absurd m))
  warn_Means n w guard_note = ((λ e. cc), (λ m. absurd m))

  ok_Means : ¬ Critical lim ss → ¬ Warning lim ss → (l : Level) → (guard_ok ≡ l) ↔ Means lim ss l
  ok_Means n w guard_crit = ((λ e. cc), (λ c. absurd (n c)))
  ok_Means n w guard_warn = ((λ e. cc), (λ m. absurd (w m.1)))
  ok_Means n w guard_ok = ((λ _. (n, w)), (λ _. refl))
  ok_Means n w guard_unknown = ((λ e. cc), (λ m. absurd m))
  ok_Means n w guard_note = ((λ e. cc), (λ m. absurd m))

  level_Means :
      (l : Level)
      → ((if crit_condition lim ss
            then guard_crit
            else if warn_condition lim ss
            then guard_warn
            else guard_ok)
          ≡ l)
        ↔ Means lim ss l
  level_Means l = elim (Bool-cases (crit_condition lim ss)) [
    | inl c ↦ rw c (crit_Means (Critical-found lim ss c) l)
    | inr n ↦ elim (Bool-cases (warn_condition lim ss)) [
      | inl w ↦
          rw (n, w) (warn_Means (λ c. cc (n, Critical-shown lim ss c)) (Warning-found lim ss w) l)
      | inr m ↦
          rw (n, m)
            (ok_Means (λ c. cc (n, Critical-shown lim ss c)) (λ w. cc (m, Warning-shown lim ss w))
              l)
    ]
  ]

-- A run on at least one sample is CRITICAL exactly when one of the four faults holds in every
-- sample, WARNING exactly when none does and one of the three lesser ones holds in every sample,
-- and OK otherwise; it is never UNKNOWN, and an advisory never becomes the verdict.
pub guard_eval-Means :
    (lim : Limits) (s : Sample) (ss : List Sample) (l : Level)
    → ((guard_eval (s ∷ ss) lim).level ≡ l) ↔ Means lim (s ∷ ss) l
guard_eval-Means lim s ss l = rw (guard_eval-level lim s ss) (level_Means lim (s ∷ ss) l)
