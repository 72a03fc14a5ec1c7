-- ===== src/Base/Scan.antt =====
-- The parts of the C library that read numbers from text: isspace, isdigit and strtol in base 10. A C
-- string is its bytes without the terminating NUL.
use Prim.Native.Nat.{ℕ, zero, suc, ◌+◌, ◌-◌, ◌*◌, ◌/◌, ◌%◌, ◌^◌, ◌≤◌, ◌<◌}
use mathlib.Core.Path.{◌≡◌, refl, ◌∙◌, ap}
use mathlib.Core.Bool.{Bool, true, false, ◌&&◌, ◌||◌}
use mathlib.Core.Option.{Option, none, some}
use mathlib.Core.List.{[], ◌∷◌, ◌++◌, append_assoc, append-nil}
use mathlib.Core.Logic.{inl, inr, ◌≢◌}
use native.Mathlib.Nat.{pow-suc}
use native.Mathlib.Omega.{arith}
use astral_hwmon.Base.Lists.{length, length-append, All, All-append}
use astral_hwmon.Base.Tests.{ltb, leb, ◌==◌, if◌then◌else◌, Bool-cases}
use astral_hwmon.Base.Int.{ℤ, pos, negsuc}
use astral_hwmon.Base.Text.{Bytes, decimal, decimal_fuel}

-- Space, and \t \n \v \f \r.
abbrev pub is_space : ℕ → Bool
is_space c = c == b' ' || leb 9 c && leb c 13

abbrev pub is_digit : ℕ → Bool
is_digit c = leb b'0' c && leb c b'9'

abbrev pub starts_digit : Bytes → Bool
starts_digit [] = false
starts_digit (c ∷ s) = is_digit c

unfoldable pub skip_spaces : Bytes → Bytes
skip_spaces [] = []
skip_spaces (c ∷ s) = if is_space c then skip_spaces s else c ∷ s

-- The value of the digits at the front, after those read already, and what follows them.
unfoldable pub read_digits : ℕ → Bytes → ℕ × Bytes
read_digits n [] = (n, [])
read_digits n (c ∷ s) = if is_digit c then read_digits (n * 10 + (c - b'0')) s else (n, c ∷ s)

abbrev pub signed : Bool → ℕ → ℤ
signed false n = pos n
signed true zero = pos 0
signed true (suc n) = negsuc n

-- An optional sign.
unfoldable pub read_sign : Bytes → Bool × Bytes
read_sign [] = (false, [])
read_sign (c ∷ s) =
    if c == b'-' then (true, s) else if c == b'+' then (false, s) else (false, c ∷ s)

-- Spaces, a sign and digits; `none` if there is no digit.
unfoldable pub scan_int : Bytes → Option (ℤ × Bytes)
unfolding skip_spaces read_digits read_sign
scan_int s =
    let (negative, body) = read_sign (skip_spaces s) in
    let (n, rest) = read_digits 0 body in
    if starts_digit body then some (signed negative n, rest) else none

abbrev pub long_max : ℕ
long_max = 2 ^ 63 - 1

-- A value beyond the ends of `long` becomes that end.
abbrev pub saturate : ℤ → ℤ
saturate (pos n) = if ltb long_max n then pos long_max else pos n
saturate (negsuc n) = if ltb long_max n then negsuc long_max else negsuc n

-- `strtol(s, &end, 10)`: the value and the text at `end`, or `none` where `end == s`.
unfoldable pub strtol : Bytes → Option (ℤ × Bytes)
strtol s = elim (scan_int s) [ none ↦ none | some (v, rest) ↦ some (saturate v, rest) ]

read_digits-digit :
    (n d : ℕ) (rest : Bytes)
    → d < 10
    → read_digits n ((b'0' + d) ∷ rest) ≡ read_digits (n * 10 + d) rest
unfolding read_digits
read_digits-digit n d rest h =
    let digit : is_digit (b'0' + d) ≡ true = ground arith in
    let value : n * 10 + (b'0' + d - b'0') ≡ n * 10 + d = omega arith in rw (digit, value)

decimal_fuel-small : (fuel n : ℕ) → ltb n 10 ≡ true → decimal_fuel (suc fuel) n ≡ (b'0' + n) ∷ []
unfolding decimal_fuel
decimal_fuel-small fuel n h = rw (h, decimal_fuel)

decimal_fuel-large :
    (fuel n : ℕ)
    → ltb n 10 ≡ false
    → decimal_fuel (suc fuel) n ≡ decimal_fuel fuel (n / 10) ++ (b'0' + n % 10) ∷ []
unfolding decimal_fuel
decimal_fuel-large fuel n h = rw (h, decimal_fuel)

-- The digits that `decimal` writes are read back as the number.
read_digits-decimal_fuel :
    (fuel n : ℕ) (rest : Bytes)
    → n < fuel
    → read_digits 0 (decimal_fuel fuel n ++ rest) ≡ read_digits n rest
read_digits-decimal_fuel zero n rest h = absurd (omega arith)
read_digits-decimal_fuel (suc fuel) n rest h = elim (Bool-cases (ltb n 10)) [
  | inl small ↦
      rw (decimal_fuel-small fuel n small) (
        read_digits-digit 0 n rest (ground arith)
        ∙ ap (λ (m : ℕ). read_digits m rest) (omega arith))
  | inr large ↦
      rw
        (
          decimal_fuel-large fuel n large,
          append_assoc (decimal_fuel fuel (n / 10)) ((b'0' + n % 10) ∷ []) rest,
        )
        (read_digits-decimal_fuel fuel (n / 10) ((b'0' + n % 10) ∷ rest) (ground arith)
          ∙ read_digits-digit (n / 10) (n % 10) rest (omega arith)
          ∙ ap (λ (m : ℕ). read_digits m rest) (omega arith))
]

-- A decimal number begins with a digit.
decimal_fuel-head :
    (fuel n : ℕ)
    → n < fuel
    → (d : ℕ) × (ds : Bytes) × (decimal_fuel fuel n ≡ d ∷ ds) × (is_digit d ≡ true)
decimal_fuel-head zero n h = absurd (omega arith)
decimal_fuel-head (suc fuel) n h = elim (Bool-cases (ltb n 10)) [
  | inl small ↦ (b'0' + n, [], decimal_fuel-small fuel n small, ground arith)
  | inr large ↦
      let (d, ds, e, digit) = decimal_fuel-head fuel (n / 10) (ground arith) in
      (d, ds ++ (b'0' + n % 10) ∷ [], rw (decimal_fuel-large fuel n large, e), digit)
]

read_digits-stop :
    (n : ℕ) (rest : Bytes) → starts_digit rest ≡ false → read_digits n rest ≡ (n, rest)
unfolding read_digits
read_digits-stop n [] h = refl
read_digits-stop n (c ∷ rest) h = rw h

digit_plain :
    (d : ℕ) (s : Bytes) → is_digit d ≡ true → read_sign (skip_spaces (d ∷ s)) ≡ (false, d ∷ s)
unfolding skip_spaces read_sign
digit_plain d s h =
    let space : is_space d ≡ false = ground arith in
    let minus : (d == b'-') ≡ false = ground arith in
    let plus : (d == b'+') ≡ false = ground arith in rw (space, minus, plus)

scan_digits :
    (s : Bytes) (d : ℕ) (ds : Bytes) (n : ℕ) (rest : Bytes)
    → s ≡ d ∷ ds
    → is_digit d ≡ true
    → read_digits 0 s ≡ (n, rest)
    → scan_int s ≡ some (pos n, rest)
unfolding scan_int
scan_digits s d ds n rest e digit digits =
    let digits' : read_digits 0 (d ∷ ds) ≡ (n, rest) = rw e at digits in
    rw (e, digit_plain d ds digit, digits', digit)

-- The first digit of a decimal number.
pub decimal-head : (n : ℕ) → (d : ℕ) × (ds : Bytes) × (decimal n ≡ d ∷ ds) × (is_digit d ≡ true)
unfolding decimal
decimal-head n = decimal_fuel-head (suc n) n (omega arith)

-- The digits of a decimal number are read to their end.
pub read_digits-decimal :
    (n : ℕ) (rest : Bytes)
    → starts_digit rest ≡ false
    → read_digits 0 (decimal n ++ rest) ≡ (n, rest)
unfolding decimal
read_digits-decimal n rest h =
    read_digits-decimal_fuel (suc n) n rest (omega arith) ∙ read_digits-stop n rest h

-- A decimal number that no digit follows is scanned whole.
scan_int-decimal :
    (n : ℕ) (rest : Bytes)
    → starts_digit rest ≡ false
    → scan_int (decimal n ++ rest) ≡ some (pos n, rest)
scan_int-decimal n rest h =
    let (d, ds, e, digit) = decimal-head n in
    scan_digits (decimal n ++ rest) d (ds ++ rest) n rest (ap (λ (s : Bytes). s ++ rest) e) digit
      (read_digits-decimal n rest h)

-- Every byte of a decimal number is a digit.
decimal_fuel-digits : (fuel n : ℕ) → n < fuel → All (λ c. is_digit c ≡ true) (decimal_fuel fuel n)
decimal_fuel-digits zero n h = absurd (omega arith)
decimal_fuel-digits (suc fuel) n h = elim (Bool-cases (ltb n 10)) [
  | inl small ↦ rw (decimal_fuel-small fuel n small) (ground arith, tt)
  | inr large ↦ rw (decimal_fuel-large fuel n large) (
      All-append _ (decimal_fuel fuel (n / 10)) _ (decimal_fuel-digits fuel (n / 10) (ground arith))
        (ground arith, tt))
]

pub decimal-digits : (n : ℕ) → All (λ c. is_digit c ≡ true) (decimal n)
unfolding decimal
decimal-digits n = decimal_fuel-digits (suc n) n (omega arith)

-- A number below 10 ^ (k + 1) has at most k + 1 digits.
decimal_fuel-length :
    (k fuel n : ℕ) → n < fuel → n < 10 ^ suc k → length (decimal_fuel fuel n) ≤ suc k
decimal_fuel-length k zero n h bound = absurd (omega arith)
decimal_fuel-length zero (suc fuel) n h bound =
    rw (decimal_fuel-small fuel n (ground arith)) (omega arith)
decimal_fuel-length (suc k) (suc fuel) n h bound = elim (Bool-cases (ltb n 10)) [
  | inl small ↦ rw (decimal_fuel-small fuel n small) (omega arith)
  | inr large ↦ rw (decimal_fuel-large fuel n large) (
      omega (
        arith,
        length-append (decimal_fuel fuel (n / 10)) ((b'0' + n % 10) ∷ []),
        decimal_fuel-length k fuel (n / 10) (ground arith) (omega (arith, pow-suc 10 (suc k))),
      ))
]

pub decimal-length : (k n : ℕ) → n < 10 ^ suc k → length (decimal n) ≤ suc k
unfolding decimal
decimal-length k n bound = decimal_fuel-length k (suc n) n (omega arith) bound

pub decimal-ne-nil : (n : ℕ) → decimal n ≢ []
unfolding decimal
decimal-ne-nil n h = let (d, ds, e, digit) = decimal_fuel-head (suc n) n (omega arith) in cc (h, e)

-- A decimal number is read by `strtol` to its end, up to the saturation.
pub strtol-decimal : (n : ℕ) → strtol (decimal n) ≡ some (saturate (pos n), [])
unfolding strtol
strtol-decimal n =
    let whole : scan_int (decimal n) ≡ some (pos n, []) =
      rw append-nil at (scan_int-decimal n [] refl) in
    rw (whole, strtol)
