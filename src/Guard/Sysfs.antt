-- ===== src/Guard/Sysfs.antt =====
-- guard/guard_sysfs.c: finding the chips and reading a sample. The file system is a parameter: the
-- text of each file that opens, and the entries of each directory that opens, in the order of
-- readdir. Each path is read once for a sample and once for a search, so what changes in between
-- makes no difference to this view.
pub mod Attr
pub mod Exposed
pub mod Order
use astral_hwmon.Base.{
  ℕ, zero, suc, ◌+◌, ◌-◌, ◌/◌, Bool, true, false, ◌&&◌, ◌||◌, Option, none, some, List, [], ◌∷◌,
  ◌++◌, ltb, ◌==◌, if◌then◌else◌, take, Pin, index, pins, update,
}
use astral_hwmon.Base.Int.{ℤ, pos, negsuc}
use astral_hwmon.Base.Text.{Bytes, codes, decimal, snprintf}
use astral_hwmon.Base.Scan.{strtol}
use astral_hwmon.Guard.Types.{
  Sample, Chip, guard_default_interval_ms, guard_max_interval_ms, guard_chip_name, guard_mv_min,
  guard_mv_max, guard_ma_max,
}

pub record Sysfs : Type 0 where
  pub file : Bytes → Option Bytes
  pub dir : Bytes → Option (List Bytes)

-- The C string that a buffer holds, ended at the first newline: `out[strcspn(out, "\n")] = '\0'`.
unfoldable pub cut_line : Bytes → Bytes
cut_line [] = []
cut_line (c ∷ s) = if c == 0 || c == 10 then [] else c ∷ cut_line s

-- `fgets` of at most `max - 1` bytes, which fails on an empty file, and the cut.
unfoldable pub first_line : ℕ → Bytes → Option Bytes
unfolding cut_line
first_line max [] = none
first_line max (c ∷ s) = some (cut_line (take (max - 1) (c ∷ s)))

-- `char path[sizeof(((struct guard_chip *)0)->path) + 64]`
abbrev pub attr_path : Bytes → Bytes → Bytes
attr_path dir attr = snprintf 3136 (dir ++ (codes "/" ++ attr))

abbrev pub opened : ℕ → Option Bytes → Option Bytes
opened max none = none
opened max (some text) = first_line max text

unfoldable pub read_attr : Sysfs → Bytes → Bytes → ℕ → Option Bytes
unfolding first_line
read_attr sys dir attr max = opened max (sys.file (attr_path dir attr))

-- `v < lo || v > hi`, for bounds that are not negative.
unfoldable pub in_bounds : ℕ → ℕ → ℤ → Option ℕ
in_bounds lo hi (pos v) = if ltb v lo || ltb hi v then none else some v
in_bounds lo hi (negsuc v) = none

abbrev pub is_empty : Bytes → Bool
is_empty [] = true
is_empty (c ∷ s) = false

-- What is made of `strtol`'s value and end pointer.
unfoldable pub whole_number : ℕ → ℕ → Option (ℤ × Bytes) → Option ℕ
unfolding in_bounds
whole_number lo hi none = none
whole_number lo hi (some (v, rest)) = if is_empty rest then in_bounds lo hi v else none

abbrev pub parsed : ℕ → ℕ → Option Bytes → Option ℕ
parsed lo hi none = none
parsed lo hi (some buf) = whole_number lo hi (strtol buf)

unfoldable pub read_int_attr : Sysfs → Bytes → Bytes → ℕ → ℕ → Option ℕ
unfolding whole_number
read_int_attr sys dir attr lo hi = parsed lo hi (read_attr sys dir attr 32)

-- `strcmp(x, y) <= 0`
unfoldable pub strcmp_le : Bytes → Bytes → Bool
strcmp_le [] t = true
strcmp_le (a ∷ s) [] = false
strcmp_le (a ∷ s) (b ∷ t) = if ltb a b then true else if ltb b a then false else strcmp_le s t

unfoldable pub str_eq : Bytes → Bytes → Bool
unfolding strcmp_le
str_eq s t = strcmp_le s t && strcmp_le t s

unfoldable pub by_path : Chip → Chip → Bool
unfolding strcmp_le
by_path x y = strcmp_le x.path y.path

-- `qsort` by `by_path`: a sorted rearrangement of the array.
unfoldable pub insert : Chip → List Chip → List Chip
unfolding by_path
insert x [] = x ∷ []
insert x (y ∷ ys) = if by_path x y then x ∷ (y ∷ ys) else y ∷ insert x ys

unfoldable pub qsort : List Chip → List Chip
unfolding insert
qsort [] = []
qsort (x ∷ xs) = insert x (qsort xs)

abbrev pub or_default : Option ℕ → ℕ
or_default none = guard_default_interval_ms
or_default (some v) = v

unfoldable pub chip_of : Sysfs → Bytes → Chip
chip_of sys path = record {
  path = snprintf 3072 path;
  update_interval_ms =
      or_default (read_int_attr sys path (codes "update_interval") 0 guard_max_interval_ms);
}

abbrev pub starts_dot : Bytes → Bool
starts_dot [] = false
starts_dot (c ∷ s) = c == b'.'

abbrev pub named_chip : Option Bytes → Chip → Option Chip
named_chip none chip = none
named_chip (some name) chip = if str_eq name guard_chip_name then some chip else none

-- One entry of the directory: the chip that it is, or `none` where the loop continues.
unfoldable pub entry_chip : Sysfs → Bytes → Bytes → Option Chip
unfolding chip_of
entry_chip sys class_dir d_name =
    let path = snprintf 3072 (class_dir ++ (codes "/" ++ d_name)) in
    if starts_dot d_name
    then none
    else named_chip (read_attr sys path (codes "name") 64) (chip_of sys path)

-- The loop over the entries, with room for `max - n` more chips.
unfoldable pub scan_entries : (Bytes → Option Chip) → ℕ → List Bytes → List Chip
scan_entries chip room [] = []
scan_entries chip zero (e ∷ es) = []
scan_entries chip (suc room) (e ∷ es) = elim (chip e) [
  | none ↦ scan_entries chip (suc room) es
  | some c ↦ c ∷ scan_entries chip room es
]

abbrev pub class_dir_of : Bytes → Bytes
class_dir_of sysfs_root = snprintf 2048 (sysfs_root ++ codes "/class/hwmon")

abbrev pub listed : Sysfs → Bytes → ℕ → Option (List Bytes) → Option (List Chip)
listed sys class_dir max none = none
listed sys class_dir max (some entries) =
    some (qsort (scan_entries (entry_chip sys class_dir) max entries))

-- `guard_find_chips`: `none` is -1.
unfoldable pub find_chips : Sysfs → Bytes → ℕ → Option (List Chip)
unfolding entry_chip scan_entries qsort
find_chips sys sysfs_root max =
    listed sys (class_dir_of sysfs_root) max (sys.dir (class_dir_of sysfs_root))

-- Voltages are counted from 0, currents from 1.
abbrev pub in_attr : Pin → Bytes
in_attr pin = snprintf 32 (codes "in" ++ (decimal (index pin) ++ codes "_input"))

abbrev pub curr_attr : Pin → Bytes
curr_attr pin = snprintf 32 (codes "curr" ++ (decimal (index pin + 1) ++ codes "_input"))

abbrev pub store_mv : Sample → Pin → ℕ → Sample
store_mv out pin v = record out { mv = update out.mv pin v }

abbrev pub store_ma : Sample → Pin → ℕ → Sample
store_ma out pin v = record out { ma = update out.ma pin v }

infixl 5 ◌>>=◌
abbrev pub ◌>>=◌ {ℓ κ} : {A : Type ℓ} {B : Type κ} → Option A → (A → Option B) → Option B
none >>= f = none
some a >>= f = f a

-- One round of `guard_read_sample`.
unfoldable pub read_pin : Sysfs → Chip → Sample → Pin → Option Sample
read_pin sys c out pin = do
  mv ← read_int_attr sys c.path (in_attr pin) guard_mv_min guard_mv_max
  ma ← read_int_attr sys c.path (curr_attr pin) 0 guard_ma_max
  some (store_ma (store_mv out pin mv) pin ma)

unfoldable pub read_pins : Sysfs → Chip → Sample → List Pin → Option Sample
unfolding read_pin
read_pins sys c out [] = some out
read_pins sys c out (pin ∷ rest) = do out' ← read_pin sys c out pin; read_pins sys c out' rest

-- `guard_read_sample`, into a sample that held `out`; `none` is -1.
unfoldable pub read_sample : Sysfs → Chip → Sample → Option Sample
unfolding read_pins
read_sample sys c out = read_pins sys c out pins
