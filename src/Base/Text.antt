-- ===== src/Base/Text.antt =====
-- Bytes of text and the decimal numbers that `printf` writes. A byte is a number.
use Prim.Native.Nat.{ℕ, zero, suc, ◌+◌, ◌-◌, ◌/◌, ◌%◌}
use Prim.Native.Char.{code}
use Prim.Native.String.{String}
use mathlib.Core.Bool.{true, false}
use mathlib.Core.List.{List, [], ◌∷◌, ◌++◌}
use mathlib.Core.Path.{◌≡◌}
use astral_hwmon.Base.Lists.{take, take-take}
use astral_hwmon.Base.Tests.{ltb}
use astral_hwmon.Base.Int.{ℤ, pos, negsuc}

abbrev pub Bytes : Type 0
Bytes = List ℕ

-- The bytes of an ASCII literal.
abbrev pub codes : String → Bytes
codes String.[] = []
codes (String.◌∷◌ c s) = code c ∷ codes s

-- One round for each digit; `n` has at most `n + 1` of them.
unfoldable pub decimal_fuel : ℕ → ℕ → Bytes
decimal_fuel zero n = []
decimal_fuel (suc fuel) n = elim (ltb n 10) [
  | true ↦ (b'0' + n) ∷ []
  | false ↦ decimal_fuel fuel (n / 10) ++ (b'0' + n % 10) ∷ []
]

-- `%d`, `%ld` and `%zu` of a number that is not negative.
unfoldable pub decimal : ℕ → Bytes
unfolding decimal_fuel
decimal n = decimal_fuel (suc n) n

-- `%d`
unfoldable pub show_int : ℤ → Bytes
unfolding decimal
show_int (pos n) = decimal n
show_int (negsuc n) = b'-' ∷ decimal (suc n)

-- What `snprintf` leaves in a buffer of `size` bytes, without the terminating NUL.
unfoldable pub snprintf : ℕ → Bytes → Bytes
snprintf size s = take (size - 1) s

pub snprintf-snprintf : (size : ℕ) (s : Bytes) → snprintf size (snprintf size s) ≡ snprintf size s
unfolding snprintf
snprintf-snprintf size s = take-take (size - 1) s

-- Pieces of text one after the other, as a format with its arguments prints them.
abbrev pub texts : List Bytes → Bytes
texts [] = []
texts (s ∷ rest) = s ++ texts rest
