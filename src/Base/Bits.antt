-- ===== src/Base/Bits.antt =====
-- `|` of a shifted byte and a byte, from the digits that the native operation stands for.
use Prim.Native.Nat.{
  ℕ, zero, suc, ◌+◌, ◌*◌, ◌/◌, ◌%◌, ◌^◌, ◌≤◌, ◌<◌, max, bit_or, digits, bit_or-bitwise,
}
use mathlib.Core.Path.{◌≡◌, refl, ap, sym}
use native.Mathlib.Nat.{pow-suc, mul_assoc}
use native.Mathlib.Omega.{arith}

abbrev or_digits : ℕ → ℕ → ℕ → ℕ
or_digits n a b = digits (λ b. b) max n a b

or_digits_fuel : (n m a b : ℕ) → a ≤ n → a ≤ m → or_digits n a b ≡ or_digits m a b
or_digits_fuel zero zero a b p q = refl
or_digits_fuel zero (suc m) zero b p q = refl
or_digits_fuel zero (suc m) (suc a) b p q = absurd (omega arith)
or_digits_fuel (suc n) zero zero b p q = refl
or_digits_fuel (suc n) zero (suc a) b p q = absurd (omega arith)
or_digits_fuel (suc n) (suc m) zero b p q = refl
or_digits_fuel (suc n) (suc m) (suc a) b p q =
    omega (arith, or_digits_fuel n m (suc a / 2) (b / 2) (omega arith) (omega arith))

zero-bit_or : (b : ℕ) → bit_or 0 b ≡ b
zero-bit_or b = bit_or-bitwise 0 b

bit_or_step : (a b : ℕ) → bit_or a b ≡ bit_or (a / 2) (b / 2) * 2 + max (a % 2) (b % 2)
bit_or_step zero b = omega (arith, zero-bit_or b, zero-bit_or (b / 2))
bit_or_step (suc a) b = omega (
  arith,
  bit_or-bitwise (suc a) b,
  bit_or-bitwise (suc a / 2) (b / 2),
  or_digits_fuel a (suc a / 2) (suc a / 2) (b / 2) (omega arith) (omega arith),
)

bit_or-zero_fuel : (n a : ℕ) → a ≤ n → bit_or a 0 ≡ a
bit_or-zero_fuel n zero h = refl
bit_or-zero_fuel zero (suc a) h = absurd (omega arith)
bit_or-zero_fuel (suc n) (suc a) h =
    omega (arith, bit_or_step (suc a) 0, bit_or-zero_fuel n (suc a / 2) (omega arith))

bit_or-zero : (a : ℕ) → bit_or a 0 ≡ a
bit_or-zero a = bit_or-zero_fuel a a (omega arith)

half : (x : ℕ) → x * 2 / 2 ≡ x
half x = omega arith

-- A round of the shift: the low bit comes from the low operand alone.
bit_or_double : (x b : ℕ) → bit_or (x * 2) b ≡ bit_or x (b / 2) * 2 + b % 2
bit_or_double x b = omega (arith, bit_or_step (x * 2) b, ap (λ (t : ℕ). bit_or t (b / 2)) (half x))

one_times : (a : ℕ) → a * 2 ^ 0 ≡ a
one_times a = omega arith

times_suc : (k a : ℕ) → a * 2 ^ suc k ≡ a * 2 ^ k * 2
times_suc k a = rw pow-suc (sym (mul_assoc a (2 ^ k) 2))

-- `k` rounds: shifting by `k` leaves the low operand's last `k` digits alone.
bit_or-shift_pow : (k a b : ℕ) → b < 2 ^ k → bit_or (a * 2 ^ k) b ≡ a * 2 ^ k + b
bit_or-shift_pow zero a b h =
    let e : b ≡ 0 = omega arith in rw (e, one_times a) (omega (arith, bit_or-zero a))
bit_or-shift_pow (suc k) a b h = rw (times_suc k a) (
    omega (
      arith,
      bit_or_double (a * 2 ^ k) b,
      bit_or-shift_pow k a (b / 2) (omega (arith, pow-suc 2 k)),
    ))

-- A byte fits below a number that is shifted by eight.
pub bit_or-shift : (a b : ℕ) → b < 256 → bit_or (a * 256) b ≡ a * 256 + b
bit_or-shift a b h = bit_or-shift_pow 8 a b h
