-- ===== src/Guard/Sysfs/Attr.antt =====
-- What `read_int_attr` accepts.
use astral_hwmon.Base.{
  ℕ, ◌-◌, ◌≤◌, ◌<◌, ◌≡◌, refl, ap, ◌∙◌, ◌≢◌, inl, inr, true, false, ◌&&◌, ◌||◌, Option, none, some,
  [], ◌∷◌, ◌++◌, arith, ltb, leb, ◌==◌, if◌then◌else◌, Bool-cases, length, take, take_all, All,
  length-append,
}
use astral_hwmon.Base.Int.{ℤ, pos, negsuc}
use astral_hwmon.Base.Text.{Bytes, decimal}
use astral_hwmon.Base.Scan.{
  strtol, saturate, long_max, strtol-decimal, decimal-digits, decimal-ne-nil, is_digit,
}
use astral_hwmon.Guard.Sysfs.{
  Sysfs, cut_line, first_line, attr_path, read_attr, in_bounds, whole_number, parsed, read_int_attr,
}

-- The file that a driver's attribute shows for a number: its digits and a newline.
abbrev pub attr_text : ℕ → Bytes
attr_text n = decimal n ++ b'\n' ∷ []

in_bounds-range : (lo hi : ℕ) (z : ℤ) {v : ℕ} → in_bounds lo hi z ≡ some v → (lo ≤ v) × (v ≤ hi)
unfolding in_bounds
in_bounds-range lo hi (pos n) h = ground arith
in_bounds-range lo hi (negsuc n) h = cc

pub whole_number-range :
    (lo hi : ℕ) (r : Option (ℤ × Bytes)) {v : ℕ}
    → whole_number lo hi r ≡ some v
    → (lo ≤ v) × (v ≤ hi)
unfolding whole_number
whole_number-range lo hi none h = cc
whole_number-range lo hi (some (z, [])) h = in_bounds-range lo hi z h
whole_number-range lo hi (some (z, c ∷ rest)) h = cc

parsed-range :
    (lo hi : ℕ) (o : Option Bytes) {v : ℕ} → parsed lo hi o ≡ some v → (lo ≤ v) × (v ≤ hi)
parsed-range lo hi none h = cc
parsed-range lo hi (some buf) h = whole_number-range lo hi (strtol buf) h

-- A number is accepted only in its range, whatever the file holds.
pub read_int_attr-bounds :
    (sys : Sysfs) (dir attr : Bytes) (lo hi : ℕ) {v : ℕ}
    → read_int_attr sys dir attr lo hi ≡ some v
    → (lo ≤ v) × (v ≤ hi)
unfolding read_int_attr
read_int_attr-bounds sys dir attr lo hi h = parsed-range lo hi (read_attr sys dir attr 32) h

-- Digits before a newline are cut out whole.
cut_line-digits : (s : Bytes) → All (λ c. is_digit c ≡ true) s → cut_line (s ++ b'\n' ∷ []) ≡ s
unfolding cut_line
cut_line-digits [] h = refl
cut_line-digits (c ∷ s) h =
    let text : (c == 0 || c == 10) ≡ false = ground (arith, h.0) in rw (text, cut_line-digits s h.1)

first_line-cons :
    (max : ℕ) (s : Bytes) → s ≢ [] → first_line max s ≡ some (cut_line (take (max - 1) s))
unfolding first_line
first_line-cons max [] h = absurd (h refl)
first_line-cons max (c ∷ s) h = refl

append-ne-nil : (s t : Bytes) → s ≢ [] → s ++ t ≢ []
append-ne-nil [] t h e = h refl
append-ne-nil (c ∷ s) t h e = cc

read_attr-attr_text :
    (sys : Sysfs) (dir attr : Bytes) (n : ℕ)
    → sys.file (attr_path dir attr) ≡ some (attr_text n)
    → length (decimal n) ≤ 30
    → read_attr sys dir attr 32 ≡ some (decimal n)
unfolding read_attr
read_attr-attr_text sys dir attr n e short =
    rw (e, read_attr)
      (first_line-cons 32 (attr_text n) (append-ne-nil (decimal n) (b'\n' ∷ []) (decimal-ne-nil n))
        ∙ ap some (
            ap cut_line
              (take_all 31 (attr_text n) (omega (arith, length-append (decimal n) (b'\n' ∷ []))))
            ∙ cut_line-digits (decimal n) (decimal-digits n)))

in_bounds-saturate :
    (lo hi n : ℕ)
    → hi < long_max
    → in_bounds lo hi (saturate (pos n)) ≡ (if leb lo n && leb n hi then some n else none)
unfolding in_bounds
in_bounds-saturate lo hi n h = elim (Bool-cases (ltb long_max n)) [
  | inl big ↦ rw big (ground arith)
  | inr fits ↦ rw fits (ground arith)
]

-- The number that an attribute shows is read back exactly if it is in range, and refused if it is
-- not, also where it does not fit a `long`.
pub read_int_attr-attr_text :
    (sys : Sysfs) (dir attr : Bytes) (lo hi n : ℕ)
    → sys.file (attr_path dir attr) ≡ some (attr_text n)
    → length (decimal n) ≤ 30
    → hi < long_max
    → read_int_attr sys dir attr lo hi ≡ (if leb lo n && leb n hi then some n else none)
unfolding read_int_attr
read_int_attr-attr_text sys dir attr lo hi n e short small =
    ap (parsed lo hi) (read_attr-attr_text sys dir attr n e short)
    ∙ ap (whole_number lo hi) (strtol-decimal n)
    ∙ in_bounds-saturate lo hi n small
