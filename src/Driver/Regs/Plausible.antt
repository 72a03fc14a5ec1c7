-- ===== src/Driver/Regs/Plausible.antt =====
-- What `astral_frame_plausible` accepts.
use astral_hwmon.Base.{
  ◌≤◌, ◌≡◌, refl, ◌↔◌, true, List, [], ◌∷◌, arith, all, all-pins_iff, Pin, pins,
}
use astral_hwmon.Driver.Regs.{
  Frame, pin_plausible, frame_plausible, frame_plausible_from, astral_mv_min, astral_mv_max,
  astral_ma_max,
}

-- The published range of one pin.
pub record InRange (f : Frame) (p : Pin) : Type 0 where
  pub mv_ge_min : astral_mv_min ≤ f.millivolts p
  pub mv_le_max : f.millivolts p ≤ astral_mv_max
  pub ma_le_max : f.milliamps p ≤ astral_ma_max

-- Every pin of the frame is in the published range.
abbrev pub IsPlausible : Frame → Type 0
IsPlausible f = (p : Pin) → InRange f p

pub pin_plausible-InRange : (f : Frame) (p : Pin) → pin_plausible f p ≡ true → InRange f p
unfolding pin_plausible
pin_plausible-InRange f p h = ground arith

pin_plausible_of : (f : Frame) (p : Pin) → InRange f p → pin_plausible f p ≡ true
unfolding pin_plausible
pin_plausible_of f p h = ground arith

plausible_from_all :
    (f : Frame) (ps : List Pin) → frame_plausible_from ps f ≡ all (pin_plausible f) ps
unfolding frame_plausible_from
plausible_from_all f [] = refl
plausible_from_all f (p ∷ ps) = ground (arith, plausible_from_all f ps)

-- A frame passes exactly when all six pins are in the published range.
pub frame_plausible_iff : (f : Frame) → (frame_plausible f ≡ true) ↔ IsPlausible f
unfolding frame_plausible
frame_plausible_iff f = rw (plausible_from_all f pins) (
  (λ h p. pin_plausible-InRange f p ((all-pins_iff (pin_plausible f)).0 h p)),
  (λ h. (all-pins_iff (pin_plausible f)).1 (λ p. pin_plausible_of f p (h p))),
)
