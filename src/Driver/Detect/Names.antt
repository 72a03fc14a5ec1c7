-- ===== src/Driver/Detect/Names.antt =====
-- The adapter that carries the chip is chosen by its parsed number.
use astral_hwmon.Base.{
  ℕ, ◌%◌, ◌^◌, ◌≡◌, ap, ◌∙◌, inl, inr, false, some, ◌++◌, ◌==◌, ltb, arith, Bool-cases,
}
use astral_hwmon.Base.Text.{Bytes, decimal}
use astral_hwmon.Base.Scan.{starts_digit}
use astral_hwmon.Base.Sscanf.{
  sscanf_d, scan_d, scan_d-decimal, skip_blanks, skip_blanks-decimal, int_of_bits,
}
use astral_hwmon.Driver.Detect.{Parent, adapter_format, selected, is_sensor_adapter}

-- The text at the front of an adapter's name is read past.
sscanf-adapter_format :
    (s : Bytes) → skip_blanks s ≡ s → sscanf_d adapter_format (adapter_format ++ s) ≡ scan_d s
unfolding sscanf_d skip_blanks scan_d
sscanf-adapter_format s h = ap scan_d h

selected_bits : (r : ℕ) → selected (some (int_of_bits r)) ≡ (r == 1)
selected_bits r = elim (Bool-cases (ltb r (2 ^ 31))) [
  | inl low ↦ rw low
  | inr high ↦ rw high (ground arith)
]

-- An adapter named "NVIDIA i2c adapter <n>", followed by anything that does not continue the
-- number, is the sensor adapter exactly when the `int` of 32 bits that n is stored in is 1: when n
-- leaves 1 on division by 2 ^ 32. So "adapter 10" is not the one.
pub is_sensor_adapter-number :
    (id n : ℕ) (owner : Parent) (rest : Bytes)
    → starts_digit rest ≡ false
    → is_sensor_adapter
        (record { id = id; name = adapter_format ++ (decimal n ++ rest); parent = owner })
      ≡ (n % 2 ^ 32 == 1)
unfolding is_sensor_adapter
is_sensor_adapter-number id n owner rest h =
    ap selected (
      sscanf-adapter_format (decimal n ++ rest) (skip_blanks-decimal n rest)
      ∙ scan_d-decimal n rest h)
    ∙ selected_bits (n % 2 ^ 32)
