-- ===== src/Base/Sscanf.antt =====
-- The kernel's sscanf (lib/vsprintf.c) with a format that ends in its only conversion, %d: white space,
-- a minus at most, and digits, whose value is stored in an `int` of 32 bits without a test of its size.
use Prim.Native.Nat.{ℕ, ◌-◌, ◌%◌, ◌^◌}
use mathlib.Core.Path.{◌≡◌, ap}
use mathlib.Core.Bool.{Bool, true, false, ◌||◌}
use mathlib.Core.Option.{Option, none, some}
use mathlib.Core.List.{[], ◌∷◌, ◌++◌}
use native.Mathlib.Omega.{arith}
use astral_hwmon.Base.Tests.{ltb, ◌==◌, if◌then◌else◌}
use astral_hwmon.Base.Int.{ℤ, pos, negsuc}
use astral_hwmon.Base.Text.{Bytes, decimal}
use astral_hwmon.Base.Scan.{
  is_space, is_digit, starts_digit, read_digits, signed, decimal-head, read_digits-decimal,
}

-- The kernel's isspace, which has the no-break space of Latin-1 as well.
abbrev is_blank : ℕ → Bool
is_blank c = is_space c || c == 0xa0

unfoldable pub skip_blanks : Bytes → Bytes
skip_blanks [] = []
skip_blanks (c ∷ s) = if is_blank c then skip_blanks s else c ∷ s

unfoldable pub read_minus : Bytes → Bool × Bytes
read_minus [] = (false, [])
read_minus (c ∷ s) = if c == b'-' then (true, s) else (false, c ∷ s)

-- The `int` with these 32 bits.
abbrev pub int_of_bits : ℕ → ℤ
int_of_bits r = if ltb r (2 ^ 31) then pos r else negsuc (2 ^ 32 - 1 - r)

-- What is left of a number in an `int`.
abbrev pub to_int : ℤ → ℤ
to_int (pos n) = int_of_bits (n % 2 ^ 32)
to_int (negsuc n) = int_of_bits (2 ^ 32 - 1 - n % 2 ^ 32)

-- The conversion %d; `none` if there is no digit.
unfoldable pub scan_d : Bytes → Option ℤ
unfolding skip_blanks read_minus read_digits
scan_d s =
    let (negative, body) = read_minus (skip_blanks s) in
    if starts_digit body then some (to_int (signed negative (read_digits 0 body).0)) else none

-- `sscanf(s, "<format>%d", &v) == 1`, with the value stored. White space in the format stands for
-- any white space, and every other byte for itself.
unfoldable pub sscanf_d : Bytes → Bytes → Option ℤ
unfolding skip_blanks scan_d
sscanf_d [] s = scan_d s
sscanf_d (f ∷ format) [] = elim (f == b' ') [ true ↦ sscanf_d format [] | false ↦ none ]
sscanf_d (f ∷ format) (c ∷ s) = elim (f == b' ') [
  | true ↦ sscanf_d format (skip_blanks (c ∷ s))
  | false ↦ elim (c == f) [ true ↦ sscanf_d format s | false ↦ none ]
]

digit_plain : (d : ℕ) (s : Bytes) → is_digit d ≡ true → skip_blanks (d ∷ s) ≡ d ∷ s
unfolding skip_blanks
digit_plain d s h = let space : is_blank d ≡ false = ground arith in rw space

digit_unsigned : (d : ℕ) (s : Bytes) → is_digit d ≡ true → read_minus (d ∷ s) ≡ (false, d ∷ s)
unfolding read_minus
digit_unsigned d s h = let minus : (d == b'-') ≡ false = ground arith in rw minus

pub skip_blanks-decimal :
    (n : ℕ) (rest : Bytes) → skip_blanks (decimal n ++ rest) ≡ decimal n ++ rest
skip_blanks-decimal n rest =
    let (d, ds, e, digit) = decimal-head n in rw e (digit_plain d (ds ++ rest) digit)

scan_digits :
    (s : Bytes) (d : ℕ) (ds : Bytes) (n : ℕ) (rest : Bytes)
    → s ≡ d ∷ ds
    → is_digit d ≡ true
    → read_digits 0 s ≡ (n, rest)
    → scan_d s ≡ some (to_int (pos n))
unfolding scan_d
scan_digits s d ds n rest e digit digits =
    let digits' : read_digits 0 (d ∷ ds) ≡ (n, rest) = rw e at digits in
    rw (e, digit_plain d ds digit, digit_unsigned d ds digit, digits', digit)

-- A decimal number that no digit follows is stored as far as 32 bits hold it.
pub scan_d-decimal :
    (n : ℕ) (rest : Bytes)
    → starts_digit rest ≡ false
    → scan_d (decimal n ++ rest) ≡ some (to_int (pos n))
scan_d-decimal n rest h =
    let (d, ds, e, digit) = decimal-head n in
    scan_digits (decimal n ++ rest) d (ds ++ rest) n rest (ap (λ (s : Bytes). s ++ rest) e) digit
      (read_digits-decimal n rest h)
