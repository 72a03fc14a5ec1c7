-- ===== src/Guard/Sysfs/Order.antt =====
-- The order of the chips that are found: it does not depend on the order of readdir, as long as
-- the chips fit the array.
use astral_hwmon.Base.{
  ℕ, zero, suc, ◌≤◌, ◌≡◌, refl, sym, ap, ◌∙◌, fun_ext, Bool, true, false, Option, none, some, List,
  [], ◌∷◌, ◌++◌, arith, if◌then◌else◌, length,
}
use astral_hwmon.Base.Text.{Bytes, codes, snprintf, snprintf-snprintf}
use astral_hwmon.Guard.Types.{Chip}
use astral_hwmon.Guard.Sysfs.{
  Sysfs, read_attr, read_int_attr, strcmp_le, by_path, insert, qsort, chip_of, starts_dot,
  named_chip, entry_chip, scan_entries, class_dir_of, listed, find_chips,
}
use mathlib.Core.Path.{ap₂}
use mathlib.Core.List.{Permᴰ}

strcmp_total : (s t : Bytes) → strcmp_le s t ≡ false → strcmp_le t s ≡ true
unfolding strcmp_le
strcmp_total [] t h = cc
strcmp_total (a ∷ s) [] h = refl
strcmp_total (a ∷ s) (b ∷ t) h = ground (arith, strcmp_total s t)

strcmp_trans : (s t u : Bytes) → strcmp_le s t ≡ true → strcmp_le t u ≡ true → strcmp_le s u ≡ true
unfolding strcmp_le
strcmp_trans [] t u h k = refl
strcmp_trans (a ∷ s) [] u h k = cc
strcmp_trans (a ∷ s) (b ∷ t) [] h k = cc
strcmp_trans (a ∷ s) (b ∷ t) (c ∷ u) h k = ground (arith, strcmp_trans s t u)

strcmp_antisym : (s t : Bytes) → strcmp_le s t ≡ true → strcmp_le t s ≡ true → s ≡ t
unfolding strcmp_le
strcmp_antisym [] [] h k = refl
strcmp_antisym [] (b ∷ t) h k = cc
strcmp_antisym (a ∷ s) [] h k = cc
strcmp_antisym (a ∷ s) (b ∷ t) h k = ground (arith, strcmp_antisym s t)

by_path_total : (x y : Chip) → by_path x y ≡ false → by_path y x ≡ true
unfolding by_path
by_path_total x y h = strcmp_total x.path y.path h

by_path_trans : (x y z : Chip) → by_path x y ≡ true → by_path y z ≡ true → by_path x z ≡ true
unfolding by_path
by_path_trans x y z h k = strcmp_trans x.path y.path z.path h k

by_path_antisym : (x y : Chip) → by_path x y ≡ true → by_path y x ≡ true → x.path ≡ y.path
unfolding by_path
by_path_antisym x y h k = strcmp_antisym x.path y.path h k

insert_comm :
    (x y : Chip) (l : List Chip)
    → (by_path x y ≡ true → by_path y x ≡ true → x ≡ y)
    → insert x (insert y l) ≡ insert y (insert x l)
unfolding insert
insert_comm x y [] same = ground (arith, by_path_total x y)
insert_comm x y (z ∷ l) same = ground (
  arith,
  insert_comm x y l same,
  by_path_total x y,
  by_path_total y x,
  by_path_total x z,
  by_path_total y z,
  by_path_trans x y z,
  by_path_trans y x z,
  by_path_trans x z y,
  by_path_trans y z x,
)

abbrev more : Option Chip → List Chip → List Chip
more none l = l
more (some c) l = c ∷ l

-- The chips among the entries, with no limit on their number.
abbrev pub chips_among : (Bytes → Option Chip) → List Bytes → List Chip
chips_among chip [] = []
chips_among chip (e ∷ es) = more (chip e) (chips_among chip es)

-- Where the chips fit, the loop finds them all.
scan_entries-fit :
    (chip : Bytes → Option Chip) (room : ℕ) (es : List Bytes)
    → length (chips_among chip es) ≤ room
    → scan_entries chip room es ≡ chips_among chip es
unfolding scan_entries
scan_entries-fit chip room [] h = refl
scan_entries-fit chip zero (e ∷ es) h = ground (arith, scan_entries-none es h)
  where
    scan_entries-none :
        (es : List Bytes)
        → length (more (chip e) (chips_among chip es)) ≤ 0
        → more (chip e) (chips_among chip es) ≡ []
    scan_entries-none es h = ground arith
scan_entries-fit chip (suc room) (e ∷ es) h =
    ground (arith, scan_entries-fit chip (suc room) es, scan_entries-fit chip room es)

abbrev place : Option Chip → List Chip → List Chip
place none l = l
place (some c) l = insert c l

qsort-more : (o : Option Chip) (l : List Chip) → qsort (more o l) ≡ place o (qsort l)
unfolding qsort
qsort-more none l = refl
qsort-more (some c) l = refl

-- A chip is known by its path.
abbrev KnownByPath : (Bytes → Option Chip) → Type 0
KnownByPath chip =
    (e e' : Bytes) (x y : Chip) → chip e ≡ some x → chip e' ≡ some y → x.path ≡ y.path → x ≡ y

place_comm :
    (o o' : Option Chip) (l : List Chip)
    → ((x y : Chip) → o ≡ some x → o' ≡ some y → x.path ≡ y.path → x ≡ y)
    → place o (place o' l) ≡ place o' (place o l)
place_comm none o' l h = refl
place_comm (some x) none l h = refl
place_comm (some x) (some y) l h =
    insert_comm x y l (λ p q. h x y refl refl (by_path_antisym x y p q))

qsort-Permᴰ :
    (chip : Bytes → Option Chip)
    → KnownByPath chip
    → {es es' : List Bytes} → Permᴰ es es'
    → qsort (chips_among chip es) ≡ qsort (chips_among chip es')
qsort-Permᴰ chip known Permᴰ.nil = refl
qsort-Permᴰ chip known (Permᴰ.cons {a} {b} {l₁} {l₂} e p) =
    qsort-more (chip a) (chips_among chip l₁)
    ∙ ap₂ (λ x l. place (chip x) l) e (qsort-Permᴰ chip known p)
    ∙ sym (qsort-more (chip b) (chips_among chip l₂))
qsort-Permᴰ chip known (Permᴰ.swap {a} {b} {a'} {b'} {l} e e') =
    rw (e, e')
      (qsort-more (chip b') _
        ∙ ap (place (chip b')) (qsort-more (chip a') _)
        ∙ place_comm (chip b') (chip a') (qsort (chips_among chip l)) (known b' a')
        ∙ sym (qsort-more (chip a') _ ∙ ap (place (chip a')) (qsort-more (chip b') _)))
qsort-Permᴰ chip known (Permᴰ.trans p q) = qsort-Permᴰ chip known p ∙ qsort-Permᴰ chip known q

named_chip-chip : (o : Option Bytes) (c : Chip) {x : Chip} → named_chip o c ≡ some x → c ≡ x
named_chip-chip none c h = cc
named_chip-chip (some name) c h = ground arith

chip_of-path :
    (sys : Sysfs) (p : Bytes) {x : Chip}
    → snprintf 3072 p ≡ p
    → chip_of sys p ≡ x
    → x ≡ chip_of sys x.path
unfolding chip_of
chip_of-path sys p cut h = sym h ∙ ap (chip_of sys) (sym cut ∙ ap (λ c. c.path) h)

picked :
    (b : Bool) (o : Option Bytes) (c : Chip) {x : Chip}
    → (if b then none else named_chip o c) ≡ some x
    → c ≡ x
picked true o c h = cc
picked false o c h = named_chip-chip o c h

pub entry_chip-path :
    (sys : Sysfs) (class_dir e : Bytes) {x : Chip}
    → entry_chip sys class_dir e ≡ some x
    → x ≡ chip_of sys x.path
unfolding entry_chip
entry_chip-path sys class_dir e h =
    chip_of-path sys _ (snprintf-snprintf 3072 (class_dir ++ (codes "/" ++ e)))
      (picked (starts_dot e) _ _ h)

entry_chip-KnownByPath : (sys : Sysfs) (class_dir : Bytes) → KnownByPath (entry_chip sys class_dir)
entry_chip-KnownByPath sys class_dir e e' x y h k same =
    entry_chip-path sys class_dir e h
    ∙ ap (chip_of sys) same
    ∙ sym (entry_chip-path sys class_dir e' k)

insert-length : (c : Chip) (l : List Chip) → length (insert c l) ≡ suc (length l)
unfolding insert
insert-length c [] = refl
insert-length c (d ∷ l) = ground (arith, insert-length c l)

pub qsort-length : (l : List Chip) → length (qsort l) ≡ length l
unfolding qsort
qsort-length [] = refl
qsort-length (c ∷ l) = insert-length c (qsort l) ∙ ap suc (qsort-length l)

chips_among-length :
    (chip : Bytes → Option Chip)
    → KnownByPath chip
    → {es es' : List Bytes} → Permᴰ es es'
    → length (chips_among chip es') ≡ length (chips_among chip es)
chips_among-length chip known p =
    sym (qsort-length (chips_among chip _))
    ∙ (sym (ap length (qsort-Permᴰ chip known p)) ∙ qsort-length (chips_among chip _))

-- The file system with these files and directories.
abbrev pub mounted : (Bytes → Option Bytes) → (Bytes → Option (List Bytes)) → Sysfs
mounted file dir = record { file = file; dir = dir }

-- What an entry is comes from the files alone.
entry_chip-mounted :
    (file : Bytes → Option Bytes) (dir dir' : Bytes → Option (List Bytes)) (class_dir e : Bytes)
    → entry_chip (mounted file dir) class_dir e ≡ entry_chip (mounted file dir') class_dir e
unfolding entry_chip chip_of read_attr read_int_attr
entry_chip-mounted file dir dir' class_dir e = refl

-- The chips of the entries `es` of the class directory under `root`.
abbrev pub all_chips : Sysfs → Bytes → List Bytes → List Chip
all_chips sys root es = chips_among (entry_chip sys (class_dir_of root)) es

find_chips-fit :
    (sys : Sysfs) (root : Bytes) (max : ℕ) {es : List Bytes}
    → sys.dir (class_dir_of root) ≡ some es
    → length (all_chips sys root es) ≤ max
    → find_chips sys root max ≡ some (qsort (all_chips sys root es))
unfolding find_chips
find_chips-fit sys root max {es} opens fits =
    ap (listed sys (class_dir_of root) max) opens
    ∙ ap (λ l. some (qsort l)) (scan_entries-fit (entry_chip sys (class_dir_of root)) max es fits)

all_chips-mounted :
    (file : Bytes → Option Bytes) (dir dir' : Bytes → Option (List Bytes)) (root : Bytes)
    (es : List Bytes)
    → all_chips (mounted file dir') root es ≡ all_chips (mounted file dir) root es
all_chips-mounted file dir dir' root es =
    ap (λ c. chips_among c es)
      (fun_ext (λ e. entry_chip-mounted file dir' dir (class_dir_of root) e))

-- Where the class directory lists at most `max` chips, the result of `guard_find_chips` does not
-- depend on the order in which readdir lists them: two listings that are rearrangements of each
-- other, over the same files, give the same array, that of all the chips among the entries, sorted.
pub find_chips-Permᴰ :
    (file : Bytes → Option Bytes) (dir dir' : Bytes → Option (List Bytes)) (root : Bytes) (max : ℕ)
    {es es' : List Bytes}
    → dir (class_dir_of root) ≡ some es
    → dir' (class_dir_of root) ≡ some es'
    → Permᴰ es es'
    → length (all_chips (mounted file dir) root es) ≤ max
    → (find_chips (mounted file dir) root max ≡ some (qsort (all_chips (mounted file dir) root es)))
      × (find_chips (mounted file dir') root max ≡ find_chips (mounted file dir) root max)
find_chips-Permᴰ file dir dir' root max {es} {es'} opens opens' perm fits =
    let sys = mounted file dir in
    let known = entry_chip-KnownByPath sys (class_dir_of root) in
    let found = find_chips-fit sys root max opens fits in
    (
      found,
      find_chips-fit (mounted file dir') root max opens' (
            rw
              (
                ap length (all_chips-mounted file dir dir' root es'),
                chips_among-length (entry_chip sys (class_dir_of root)) known perm,
              )
              fits)
          ∙ ap (λ l. some (qsort l)) (all_chips-mounted file dir dir' root es')
          ∙ ap some (sym (qsort-Permᴰ (entry_chip sys (class_dir_of root)) known perm))
          ∙ sym found,
    )
