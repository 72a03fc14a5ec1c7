-- ===== src/Base/Pins.antt =====
-- The six pins of the connector, and arrays over them. ASTRAL_PIN_COUNT and GUARD_PINS are 6; an
-- array of that size is a function of the pin, so an index is in range by its type.
use Prim.Native.Nat.{ℕ, zero, suc}
use mathlib.Core.Path.{◌≡◌, refl}
use mathlib.Core.Bool.{Bool, true, false}
use mathlib.Core.Option.{Option, none, some}
use mathlib.Core.List.{List, [], ◌∷◌}
use mathlib.Core.Logic.{◌↔◌}
use native.Mathlib.Omega.{arith}
use astral_hwmon.Base.Tests.{if◌then◌else◌}
use astral_hwmon.Base.Lists.{all}

pub data Pin : Type 0 where
  pin1 pin2 pin3 pin4 pin5 pin6 : Pin

-- The array index of a pin: index 0 is pin 1.
abbrev pub index : Pin → ℕ
index pin1 = 0
index pin2 = 1
index pin3 = 2
index pin4 = 3
index pin5 = 4
index pin6 = 5

-- `for (pin = 0; pin < 6; pin++)` visits these in order.
abbrev pub pins : List Pin
pins = pin1 ∷ pin2 ∷ pin3 ∷ pin4 ∷ pin5 ∷ pin6 ∷ []

-- The pin with a given index, if the index is in range.
abbrev pub pin_at : ℕ → Option Pin
pin_at zero = some pin1
pin_at (suc zero) = some pin2
pin_at (suc (suc zero)) = some pin3
pin_at (suc (suc (suc zero))) = some pin4
pin_at (suc (suc (suc (suc zero)))) = some pin5
pin_at (suc (suc (suc (suc (suc zero))))) = some pin6
pin_at (suc (suc (suc (suc (suc (suc n)))))) = none

pub pin_at-index : (p : Pin) → pin_at (index p) ≡ some p
pin_at-index pin1 = refl
pin_at-index pin2 = refl
pin_at-index pin3 = refl
pin_at-index pin4 = refl
pin_at-index pin5 = refl
pin_at-index pin6 = refl

abbrev pub same_pin : Pin → Pin → Bool
same_pin pin1 pin1 = true
same_pin pin2 pin2 = true
same_pin pin3 pin3 = true
same_pin pin4 pin4 = true
same_pin pin5 pin5 = true
same_pin pin6 pin6 = true
same_pin _ _ = false

-- `a[pin] = v`
abbrev pub update {ℓ} : {A : Type ℓ} → (Pin → A) → Pin → A → Pin → A
update a p v q = if same_pin p q then v else a q

-- A test of the six pins in turn is a test of every pin.
pub all-pins_iff : (t : Pin → Bool) → (all t pins ≡ true) ↔ ((p : Pin) → t p ≡ true)
all-pins_iff t = (passes, λ h. ground (arith, h pin1, h pin2, h pin3, h pin4, h pin5, h pin6))
  where
    passes : all t pins ≡ true → (p : Pin) → t p ≡ true
    passes h pin1 = ground arith
    passes h _ = ground arith
