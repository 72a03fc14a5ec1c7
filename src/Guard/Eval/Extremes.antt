-- ===== src/Guard/Eval/Extremes.antt =====
-- What the loops for the lowest and the highest reading and for the total current compute.
use astral_hwmon.Base.{
  ℕ, ◌+◌, ◌≤◌, ◌≡◌, refl, ◌⊎◌, inl, inr, List, [], ◌∷◌, foldl, arith, ltb, if◌then◌else◌,
  Bool-cases, All, Pin, pin1, pin2, pin3, pin4, pin5, pin6,
}
use astral_hwmon.Guard.Types.{Sample}
use astral_hwmon.Guard.Tally.{total_ma, lowest, highest, later_pins}

lower : (Pin → ℕ) → ℕ → Pin → ℕ
lower a lo pin = if ltb (a pin) lo then a pin else lo

higher : (Pin → ℕ) → ℕ → Pin → ℕ
higher a hi pin = if ltb hi (a pin) then a pin else hi

-- The running value stays below the old one and below the pin's, and is one of the two.
lower_lem :
    (a : Pin → ℕ) (lo : ℕ) (p : Pin)
    → (lower a lo p ≤ lo) × (lower a lo p ≤ a p) × ((lower a lo p ≡ lo) ⊎ (lower a lo p ≡ a p))
unfolding lower
lower_lem a lo p = elim (Bool-cases (ltb (a p) lo)) [
  | inl e ↦ rw e (ground arith, ground arith, inr refl)
  | inr e ↦ rw e (ground arith, ground arith, inl refl)
]

higher_lem :
    (a : Pin → ℕ) (hi : ℕ) (p : Pin)
    → (hi ≤ higher a hi p) × (a p ≤ higher a hi p) × ((higher a hi p ≡ hi) ⊎ (higher a hi p ≡ a p))
unfolding higher
higher_lem a hi p = elim (Bool-cases (ltb hi (a p))) [
  | inl e ↦ rw e (ground arith, ground arith, inr refl)
  | inr e ↦ rw e (ground arith, ground arith, inl refl)
]

lower_each :
    (a : Pin → ℕ) (lo : ℕ) (ps : List Pin)
    → (foldl (lower a) lo ps ≤ lo) × All (λ p. foldl (lower a) lo ps ≤ a p) ps
lower_each a lo [] = (omega arith, tt)
lower_each a lo (p ∷ ps) =
    let step = lower_lem a lo p in
    let rest = lower_each a (lower a lo p) ps in (omega arith, (omega arith, rest.1))

higher_each :
    (a : Pin → ℕ) (hi : ℕ) (ps : List Pin)
    → (hi ≤ foldl (higher a) hi ps) × All (λ p. a p ≤ foldl (higher a) hi ps) ps
higher_each a hi [] = (omega arith, tt)
higher_each a hi (p ∷ ps) =
    let step = higher_lem a hi p in
    let rest = higher_each a (higher a hi p) ps in (omega arith, (omega arith, rest.1))

lower_attained :
    (a : Pin → ℕ) (q : Pin) (ps : List Pin) → (p : Pin) × (foldl (lower a) (a q) ps ≡ a p)
lower_attained a q [] = (q, refl)
lower_attained a q (p ∷ ps) = elim (lower_lem a (a q) p).2 [
  | inl e ↦ rw e (lower_attained a q ps)
  | inr e ↦ rw e (lower_attained a p ps)
]

higher_attained :
    (a : Pin → ℕ) (q : Pin) (ps : List Pin) → (p : Pin) × (foldl (higher a) (a q) ps ≡ a p)
higher_attained a q [] = (q, refl)
higher_attained a q (p ∷ ps) = elim (higher_lem a (a q) p).2 [
  | inl e ↦ rw e (higher_attained a q ps)
  | inr e ↦ rw e (higher_attained a p ps)
]

-- The lowest reading is a reading, and none is lower.
pub lowest-le : (a : Pin → ℕ) (p : Pin) → lowest a ≤ a p
unfolding lowest lower
lowest-le a pin1 = (lower_each a (a pin1) later_pins).0
lowest-le a pin2 = (lower_each a (a pin1) later_pins).1.0
lowest-le a pin3 = (lower_each a (a pin1) later_pins).1.1.0
lowest-le a pin4 = (lower_each a (a pin1) later_pins).1.1.1.0
lowest-le a pin5 = (lower_each a (a pin1) later_pins).1.1.1.1.0
lowest-le a pin6 = (lower_each a (a pin1) later_pins).1.1.1.1.1.0

pub lowest_attained : (a : Pin → ℕ) → (p : Pin) × (lowest a ≡ a p)
unfolding lowest lower
lowest_attained a = lower_attained a pin1 later_pins

-- The highest reading is a reading, and none is higher.
pub le-highest : (a : Pin → ℕ) (p : Pin) → a p ≤ highest a
unfolding highest higher
le-highest a pin1 = (higher_each a (a pin1) later_pins).0
le-highest a pin2 = (higher_each a (a pin1) later_pins).1.0
le-highest a pin3 = (higher_each a (a pin1) later_pins).1.1.0
le-highest a pin4 = (higher_each a (a pin1) later_pins).1.1.1.0
le-highest a pin5 = (higher_each a (a pin1) later_pins).1.1.1.1.0
le-highest a pin6 = (higher_each a (a pin1) later_pins).1.1.1.1.1.0

pub highest_attained : (a : Pin → ℕ) → (p : Pin) × (highest a ≡ a p)
unfolding highest higher
highest_attained a = higher_attained a pin1 later_pins

pub total_ma-sum :
    (s : Sample)
    → total_ma s ≡ s.ma pin1 + s.ma pin2 + s.ma pin3 + s.ma pin4 + s.ma pin5 + s.ma pin6
unfolding total_ma
total_ma-sum s = omega arith
