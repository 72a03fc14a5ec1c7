-- ===== src/Guard/Tally.antt =====
-- guard/guard_eval.c: the loop over the samples, and what it counts. The samples are a list; each loop
-- over the pins is a fold over `pins`.
use astral_hwmon.Base.{
  ℕ, suc, ◌+◌, ◌*◌, ◌/◌, Bool, List, [], ◌∷◌, foldl, ltb, leb, if◌then◌else◌, Pin, pin1, pin2, pin3,
  pin4, pin5, pin6, pins, update,
}
use astral_hwmon.Guard.Types.{Sample, Limits}

unfoldable pub total_ma : Sample → ℕ
total_ma s = foldl (λ t pin. t + s.ma pin) 0 pins

-- The loops that look for the lowest and the highest value, from index 1 on.
abbrev pub later_pins : List Pin
later_pins = pin2 ∷ pin3 ∷ pin4 ∷ pin5 ∷ pin6 ∷ []

unfoldable pub lowest : (Pin → ℕ) → ℕ
lowest a = foldl (λ lo pin. if ltb (a pin) lo then a pin else lo) (a pin1) later_pins

unfoldable pub highest : (Pin → ℕ) → ℕ
highest a = foldl (λ hi pin. if ltb hi (a pin) then a pin else hi) (a pin1) later_pins

-- The counters of `guard_eval`.
pub record Tally : Type 0 where
  pub warn_hits : Pin → ℕ
  pub crit_hits : Pin → ℕ
  pub open_hits : Pin → ℕ
  pub worst_ma : Pin → ℕ
  pub note_hits : ℕ
  pub ratio_warn_hits : ℕ
  pub ratio_crit_hits : ℕ
  pub mv_warn_hits : ℕ
  pub mv_crit_hits : ℕ
  pub worst_pct : ℕ
  pub worst_mv : ℕ

-- `worst_mv` starts at the first pin of the first sample.
abbrev pub start : Sample → Tally
start first = record {
  warn_hits = λ _. 0;
  crit_hits = λ _. 0;
  open_hits = λ _. 0;
  worst_ma = λ _. 0;
  note_hits = 0;
  ratio_warn_hits = 0;
  ratio_crit_hits = 0;
  mv_warn_hits = 0;
  mv_crit_hits = 0;
  worst_pct = 100;
  worst_mv = first.mv pin1;
}

-- `if (hit) counter++;`
abbrev pub count_if : Bool → ℕ → ℕ
count_if hit counter = if hit then suc counter else counter

unfoldable pub pin_step : Limits → Sample → Tally → Pin → Tally
pin_step lim s t pin =
    let ma = s.ma pin in
    record t {
      worst_ma = update t.worst_ma pin (if ltb (t.worst_ma pin) ma then ma else t.worst_ma pin);
      crit_hits = update t.crit_hits pin (count_if (leb lim.pin_crit_ma ma) (t.crit_hits pin));
      warn_hits = update t.warn_hits pin (count_if (leb lim.pin_warn_ma ma) (t.warn_hits pin));
    }

unfoldable pub voltage_step : Limits → Sample → Tally → Tally
voltage_step lim s t =
    let lo = lowest s.mv in
    record t {
      worst_mv = if ltb lo t.worst_mv then lo else t.worst_mv;
      mv_crit_hits = count_if (ltb lo lim.mv_crit) t.mv_crit_hits;
      mv_warn_hits = count_if (ltb lo lim.mv_warn) t.mv_warn_hits;
    }

unfoldable pub open_step : Limits → Sample → Tally → Tally
open_step lim s t = record t {
  open_hits =
      if leb lim.open_gate_ma (total_ma s)
      then foldl
          (λ hits pin. update hits pin (count_if (ltb (s.ma pin) lim.open_pin_ma) (hits pin)))
          t.open_hits pins
      else t.open_hits;
}

unfoldable pub ratio_step : Limits → Sample → Tally → Tally
ratio_step lim s t =
    let lo = lowest s.ma in
    let hi = highest s.ma in
    let pct = lo * 100 / hi in
    if leb lim.ratio_gate_ma (total_ma s)
    then if ltb 0 hi
      then record t {
        worst_pct = if ltb pct t.worst_pct then pct else t.worst_pct;
        ratio_crit_hits = count_if (ltb (lo * 100) (hi * lim.ratio_crit_pct)) t.ratio_crit_hits;
        ratio_warn_hits = count_if (ltb (lo * 100) (hi * lim.ratio_warn_pct)) t.ratio_warn_hits;
        note_hits = count_if (ltb (lo * 100) (hi * lim.ratio_note_pct)) t.note_hits;
      }
      else t
    else t

-- One round of the loop over the samples.
unfoldable pub sample_step : Limits → Tally → Sample → Tally
unfolding pin_step voltage_step open_step ratio_step
sample_step lim t s =
    ratio_step lim s (open_step lim s (voltage_step lim s (foldl (pin_step lim s) t pins)))
