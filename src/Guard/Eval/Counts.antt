-- ===== src/Guard/Eval/Counts.antt =====
-- What each counter of `guard_eval` holds after the loop over the samples: how many samples meet a
-- condition that is stated for one sample, or the extreme of a reading.
use Prim.Native.Nat.{min, max}
use astral_hwmon.Base.{
  ℕ, ◌+◌, ◌*◌, ◌/◌, ◌≤◌, ◌≡◌, refl, ap, ◌∙◌, inl, inr, Bool, ◌&&◌, List, [], ◌∷◌, foldl, arith, ltb,
  leb, if◌then◌else◌, Bool-cases, count, Pin, pin1,
}
use astral_hwmon.Guard.Types.{Sample, Limits}
use astral_hwmon.Guard.Tally.{
  Tally, start, total_ma, lowest, highest, count_if, ratio_step, sample_step,
}

-- The condition of each rule, for one sample.
module _ (lim : Limits) where
  -- R1
  abbrev pub at_crit : Pin → Sample → Bool
  at_crit p s = leb lim.pin_crit_ma (s.ma p)

  abbrev pub at_warn : Pin → Sample → Bool
  at_warn p s = leb lim.pin_warn_ma (s.ma p)

  -- R2: the pin is open while the connector is loaded.
  abbrev pub is_open : Pin → Sample → Bool
  is_open p s = leb lim.open_gate_ma (total_ma s) && ltb (s.ma p) lim.open_pin_ma

  -- R3: under load the lowest pin carries less than `pct` percent of the highest.
  abbrev pub is_uneven : ℕ → Sample → Bool
  is_uneven pct s =
      leb lim.ratio_gate_ma (total_ma s)
      && (ltb 0 (highest s.ma) && ltb (lowest s.ma * 100) (highest s.ma * pct))

-- R4
abbrev pub is_sagging : ℕ → Sample → Bool
is_sagging mv s = ltb (lowest s.mv) mv

-- The counters after one sample.
module _ (lim : Limits) (t : Tally) (s : Sample) where
  crit_hits-step :
      (p : Pin) → (sample_step lim t s).crit_hits p ≡ count_if (at_crit lim p s) (t.crit_hits p)
  unfolding sample_step
  crit_hits-step pin1 = ground arith
  crit_hits-step p = ground arith

  warn_hits-step :
      (p : Pin) → (sample_step lim t s).warn_hits p ≡ count_if (at_warn lim p s) (t.warn_hits p)
  unfolding sample_step
  warn_hits-step pin1 = ground arith
  warn_hits-step p = ground arith

  open_hits-step :
      (p : Pin) → (sample_step lim t s).open_hits p ≡ count_if (is_open lim p s) (t.open_hits p)
  unfolding sample_step
  open_hits-step pin1 = ground arith
  open_hits-step p = ground arith

  ratio_crit_hits-step :
      (sample_step lim t s).ratio_crit_hits
      ≡ count_if (is_uneven lim lim.ratio_crit_pct s) t.ratio_crit_hits
  unfolding sample_step
  ratio_crit_hits-step = ground arith

  ratio_warn_hits-step :
      (sample_step lim t s).ratio_warn_hits
      ≡ count_if (is_uneven lim lim.ratio_warn_pct s) t.ratio_warn_hits
  unfolding sample_step
  ratio_warn_hits-step = ground arith

  note_hits-step :
      (sample_step lim t s).note_hits ≡ count_if (is_uneven lim lim.ratio_note_pct s) t.note_hits
  unfolding sample_step
  note_hits-step = ground arith

  mv_crit_hits-step :
      (sample_step lim t s).mv_crit_hits ≡ count_if (is_sagging lim.mv_crit s) t.mv_crit_hits
  unfolding sample_step
  mv_crit_hits-step = ground arith

  mv_warn_hits-step :
      (sample_step lim t s).mv_warn_hits ≡ count_if (is_sagging lim.mv_warn s) t.mv_warn_hits
  unfolding sample_step
  mv_warn_hits-step = ground arith

-- A counter that is raised by each sample that meets a condition holds their number.
count_fold :
    (lim : Limits) (get : Tally → ℕ) (hit : Sample → Bool)
    → ((t : Tally) (s : Sample) → get (sample_step lim t s) ≡ count_if (hit s) (get t))
    → (t : Tally) (ss : List Sample) → get (foldl (sample_step lim) t ss) ≡ get t + count hit ss
count_fold lim get hit law t [] = omega arith
count_fold lim get hit law t (s ∷ ss) =
    ground (arith, law t s, count_fold lim get hit law (sample_step lim t s) ss)

-- The highest current of a pin over the samples.
abbrev pub peak : Pin → List Sample → ℕ
peak p [] = 0
peak p (s ∷ ss) = max (s.ma p) (peak p ss)

-- The lowest voltage of any pin over the samples, or `first` if that is lower.
abbrev pub deepest : ℕ → List Sample → ℕ
deepest first [] = first
deepest first (s ∷ ss) = min (lowest s.mv) (deepest first ss)

-- The percentage that R3 compares, where its gate is passed.
abbrev pub ratio_pct : Limits → Sample → ℕ
ratio_pct lim s =
    if leb lim.ratio_gate_ma (total_ma s) && ltb 0 (highest s.ma)
    then lowest s.ma * 100 / highest s.ma
    else 100

abbrev pub least_pct : Limits → List Sample → ℕ
least_pct lim [] = 100
least_pct lim (s ∷ ss) = min (ratio_pct lim s) (least_pct lim ss)

least_pct-le : (lim : Limits) (ss : List Sample) → least_pct lim ss ≤ 100
least_pct-le lim [] = omega arith
least_pct-le lim (s ∷ ss) = omega (arith, least_pct-le lim ss)

keep_low : (a b : ℕ) → (if ltb b a then b else a) ≡ min a b
keep_low a b = ground arith

keep_high : (a b : ℕ) → (if ltb a b then b else a) ≡ max a b
keep_high a b = ground arith

module _ (lim : Limits) (s : Sample) (t : Tally) where
  ratio_step-worst_ma : (p : Pin) → (ratio_step lim s t).worst_ma p ≡ t.worst_ma p
  unfolding ratio_step
  ratio_step-worst_ma p = ground arith

  ratio_step-worst_mv : (ratio_step lim s t).worst_mv ≡ t.worst_mv
  unfolding ratio_step
  ratio_step-worst_mv = ground arith

  ratio_step-worst_pct : (ratio_step lim s t).worst_pct ≡ (
      if leb lim.ratio_gate_ma (total_ma s) && ltb 0 (highest s.ma)
      then if ltb (lowest s.ma * 100 / highest s.ma) t.worst_pct
        then lowest s.ma * 100 / highest s.ma
        else t.worst_pct
      else t.worst_pct)
  unfolding ratio_step
  ratio_step-worst_pct = elim (Bool-cases (leb lim.ratio_gate_ma (total_ma s))) [
    | inl e ↦ rw e (elim (Bool-cases (ltb 0 (highest s.ma))) [ inl f ↦ rw f | inr f ↦ rw f ])
    | inr e ↦ rw e
  ]

module _ (lim : Limits) (t : Tally) (s : Sample) where
  worst_ma-step : (p : Pin) → (sample_step lim t s).worst_ma p ≡ max (t.worst_ma p) (s.ma p)
  unfolding sample_step
  worst_ma-step pin1 = ratio_step-worst_ma lim s _ pin1 ∙ keep_high (t.worst_ma pin1) (s.ma pin1)
  worst_ma-step p = ratio_step-worst_ma lim s _ p ∙ keep_high (t.worst_ma p) (s.ma p)

  worst_mv-step : (sample_step lim t s).worst_mv ≡ min t.worst_mv (lowest s.mv)
  unfolding sample_step
  worst_mv-step = rw (ratio_step-worst_mv lim s) (keep_low t.worst_mv (lowest s.mv))

  worst_pct-step :
      t.worst_pct ≤ 100 → (sample_step lim t s).worst_pct ≡ min t.worst_pct (ratio_pct lim s)
  unfolding sample_step
  worst_pct-step h =
      rw (ratio_step-worst_pct lim s)
        (elim (Bool-cases (leb lim.ratio_gate_ma (total_ma s) && ltb 0 (highest s.ma))) [
          | inl e ↦ rw e (keep_low t.worst_pct (lowest s.ma * 100 / highest s.ma))
          | inr e ↦ rw e (omega arith)
        ])

worst_ma-fold :
    (lim : Limits) (p : Pin) (t : Tally) (ss : List Sample)
    → (foldl (sample_step lim) t ss).worst_ma p ≡ max (t.worst_ma p) (peak p ss)
worst_ma-fold lim p t [] = omega arith
worst_ma-fold lim p t (s ∷ ss) =
    omega (arith, worst_ma-fold lim p (sample_step lim t s) ss, worst_ma-step lim t s p)

deepest-min : (a b : ℕ) (ss : List Sample) → deepest (min a b) ss ≡ min b (deepest a ss)
deepest-min a b [] = omega arith
deepest-min a b (s ∷ ss) = omega (arith, deepest-min a b ss)

worst_mv-fold :
    (lim : Limits) (t : Tally) (ss : List Sample)
    → (foldl (sample_step lim) t ss).worst_mv ≡ deepest t.worst_mv ss
worst_mv-fold lim t [] = refl
worst_mv-fold lim t (s ∷ ss) = omega (
  arith,
  worst_mv-fold lim (sample_step lim t s) ss,
  worst_mv-step lim t s,
  deepest-min t.worst_mv (lowest s.mv) ss,
  ap (λ (m : ℕ). deepest m ss) (worst_mv-step lim t s),
)

worst_pct-fold :
    (lim : Limits) (t : Tally) (ss : List Sample)
    → t.worst_pct ≤ 100
    → (foldl (sample_step lim) t ss).worst_pct ≡ min t.worst_pct (least_pct lim ss)
worst_pct-fold lim t [] h = omega arith
worst_pct-fold lim t (s ∷ ss) h = omega (
  arith,
  worst_pct-step lim t s h,
  worst_pct-fold lim (sample_step lim t s) ss (omega (arith, worst_pct-step lim t s h)),
)

-- The tally of a run, field by field.
pub record Counts (lim : Limits) (first : ℕ) (ss : List Sample) (t : Tally) : Type 0 where
  pub crit_hits : (p : Pin) → t.crit_hits p ≡ count (at_crit lim p) ss
  pub warn_hits : (p : Pin) → t.warn_hits p ≡ count (at_warn lim p) ss
  pub open_hits : (p : Pin) → t.open_hits p ≡ count (is_open lim p) ss
  pub ratio_crit_hits : t.ratio_crit_hits ≡ count (is_uneven lim lim.ratio_crit_pct) ss
  pub ratio_warn_hits : t.ratio_warn_hits ≡ count (is_uneven lim lim.ratio_warn_pct) ss
  pub note_hits : t.note_hits ≡ count (is_uneven lim lim.ratio_note_pct) ss
  pub mv_crit_hits : t.mv_crit_hits ≡ count (is_sagging lim.mv_crit) ss
  pub mv_warn_hits : t.mv_warn_hits ≡ count (is_sagging lim.mv_warn) ss
  pub worst_ma : (p : Pin) → t.worst_ma p ≡ peak p ss
  pub worst_mv : t.worst_mv ≡ deepest first ss
  pub worst_pct : t.worst_pct ≡ least_pct lim ss

-- The loop of `guard_eval` counts, for every condition, the samples that meet it, and keeps the
-- highest current of each pin, the lowest voltage and the lowest ratio.
pub tally-Counts :
    (lim : Limits) (first : Sample) (ss : List Sample)
    → Counts lim (first.mv pin1) ss (foldl (sample_step lim) (start first) ss)
tally-Counts lim first ss = record {
  crit_hits = λ p. omega (
    arith,
    count_fold lim (λ t. t.crit_hits p) (at_crit lim p) (λ t s. crit_hits-step lim t s p)
        (start first) ss,
  );
  warn_hits = λ p. omega (
    arith,
    count_fold lim (λ t. t.warn_hits p) (at_warn lim p) (λ t s. warn_hits-step lim t s p)
        (start first) ss,
  );
  open_hits = λ p. omega (
    arith,
    count_fold lim (λ t. t.open_hits p) (is_open lim p) (λ t s. open_hits-step lim t s p)
        (start first) ss,
  );
  ratio_crit_hits = omega (
    arith,
    count_fold lim (λ t. t.ratio_crit_hits) _ (ratio_crit_hits-step lim) (start first) ss,
  );
  ratio_warn_hits = omega (
    arith,
    count_fold lim (λ t. t.ratio_warn_hits) _ (ratio_warn_hits-step lim) (start first) ss,
  );
  note_hits =
      omega (arith, count_fold lim (λ t. t.note_hits) _ (note_hits-step lim) (start first) ss);
  mv_crit_hits =
      omega
        (arith, count_fold lim (λ t. t.mv_crit_hits) _ (mv_crit_hits-step lim) (start first) ss);
  mv_warn_hits =
      omega
        (arith, count_fold lim (λ t. t.mv_warn_hits) _ (mv_warn_hits-step lim) (start first) ss);
  worst_ma = λ p. omega (arith, worst_ma-fold lim p (start first) ss);
  worst_mv = worst_mv-fold lim (start first) ss;
  worst_pct = omega (arith, worst_pct-fold lim (start first) ss (omega arith), least_pct-le lim ss);
}
