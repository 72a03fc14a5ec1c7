-- ===== src/Guard/Main/Naps.antt =====
-- How long a run sleeps: the chips that the search finds, and the naps between their samples.
use astral_hwmon.Base.{
  ℕ, zero, suc, ◌+◌, ◌*◌, ◌≤◌, ◌<◌, ◌≡◌, refl, sym, inl, inr, Bool, true, false, Option, none, some,
  List, [], ◌∷◌, ◌++◌, ◌==◌, if◌then◌else◌, arith, ltb, Bool-cases, Option-cases, All, All-append,
  length, length-append,
}
use mathlib.Core.Path.{subst}
use astral_hwmon.Base.Text.{Bytes, codes}
use astral_hwmon.Guard.Types.{guard_max_interval_ms, guard_max_chips, Chip, Sample}
use astral_hwmon.Guard.Sysfs.{
  Sysfs, chip_of, or_default, by_path, insert, qsort, entry_chip, scan_entries, class_dir_of,
  listed, find_chips, read_sample,
}
use astral_hwmon.Guard.Sysfs.Attr.{read_int_attr-bounds}
use astral_hwmon.Guard.Sysfs.Order.{entry_chip-path, qsort-length}
use astral_hwmon.Guard.Options.{Config, default_config, Parsed, parse_args}
use astral_hwmon.Guard.Options.Accepted.{IsRunnable, parse_args-IsRunnable}
use astral_hwmon.Guard.Main.{
  Run, nap, Sampling, after_read, sample_loop, gap_of, sampled, sampling_of, chip_loop, started,
  check_chips, carried_out, main,
}

-- A chip whose interval is a number that the guard accepts.
abbrev IsTimed : Chip → Type 0
IsTimed c = c.update_interval_ms ≤ guard_max_interval_ms

or_default_le :
    (o : Option ℕ)
    → ((v : ℕ) → o ≡ some v → v ≤ guard_max_interval_ms)
    → or_default o ≤ guard_max_interval_ms
or_default_le none h = omega arith
or_default_le (some v) h = h v refl

chip_of-IsTimed : (sys : Sysfs) (p : Bytes) → IsTimed (chip_of sys p)
unfolding chip_of
chip_of-IsTimed sys p =
    or_default_le _
      (λ v e. (read_int_attr-bounds sys p (codes "update_interval") 0 guard_max_interval_ms e).1)

entry_chip-IsTimed :
    (sys : Sysfs) (class_dir e : Bytes) {x : Chip} → entry_chip sys class_dir e ≡ some x → IsTimed x
entry_chip-IsTimed sys class_dir e {x} h =
    subst IsTimed (sym (entry_chip-path sys class_dir e h)) (chip_of-IsTimed sys x.path)

scan_entries-none :
    (chip : Bytes → Option Chip) (room : ℕ) (e : Bytes) (es : List Bytes)
    → chip e ≡ none
    → scan_entries chip (suc room) (e ∷ es) ≡ scan_entries chip (suc room) es
unfolding scan_entries
scan_entries-none chip room e es h = rw (h, scan_entries) refl

scan_entries-some :
    (chip : Bytes → Option Chip) (room : ℕ) (e : Bytes) (es : List Bytes) {x : Chip}
    → chip e ≡ some x
    → scan_entries chip (suc room) (e ∷ es) ≡ x ∷ scan_entries chip room es
unfolding scan_entries
scan_entries-some chip room e es h = rw (h, scan_entries) refl

-- At most `n` chips, all with intervals that the guard accepts.
abbrev AreTimed : ℕ → List Chip → Type 0
AreTimed n cs = All IsTimed cs × (length cs ≤ n)

scan_entries-IsTimed :
    (chip : Bytes → Option Chip)
    → ((e : Bytes) (x : Chip) → chip e ≡ some x → IsTimed x)
    → (room : ℕ) (es : List Bytes) → AreTimed room (scan_entries chip room es)
scan_entries-IsTimed chip timed room [] = unfold scan_entries in (_, omega arith)
scan_entries-IsTimed chip timed zero (e ∷ es) = unfold scan_entries in (_, omega arith)
scan_entries-IsTimed chip timed (suc room) (e ∷ es) = elim (Option-cases (chip e)) [
  | inl absent ↦
      subst (AreTimed (suc room)) (sym (scan_entries-none chip room e es absent))
        (scan_entries-IsTimed chip timed (suc room) es)
  | inr (x, found) ↦
      let rest = scan_entries-IsTimed chip timed room es in
      subst (AreTimed (suc room)) (sym (scan_entries-some chip room e es found))
        ((timed e x found, rest.0), omega (arith, rest.1))
]

insert-All : (P : Chip → Type 0) (x : Chip) (l : List Chip) → P x → All P l → All P (insert x l)
unfolding insert
insert-All P x [] p all = (p, _)
insert-All P x (y ∷ l) p all = elim (Bool-cases (by_path x y)) [
  | inl before ↦ rw before (p, all)
  | inr after ↦ rw after (all.0, insert-All P x l p all.1)
]

qsort-All : (P : Chip → Type 0) (l : List Chip) → All P l → All P (qsort l)
unfolding qsort
qsort-All P [] all = _
qsort-All P (x ∷ l) all = insert-All P x (qsort l) all.0 (qsort-All P l all.1)

listed-IsTimed :
    (sys : Sysfs) (class_dir : Bytes) (max : ℕ) (o : Option (List Bytes)) {cs : List Chip}
    → listed sys class_dir max o ≡ some cs
    → AreTimed max cs
listed-IsTimed sys class_dir max none h = cc
listed-IsTimed sys class_dir max (some entries) h =
    let found =
      scan_entries-IsTimed (entry_chip sys class_dir)
        (λ e x k. entry_chip-IsTimed sys class_dir e k) max entries in
    subst (AreTimed max) (some_inj h) (
      qsort-All IsTimed _ found.0,
      omega (arith, qsort-length (scan_entries (entry_chip sys class_dir) max entries), found.1),
    )
  where
    some_inj : {x y : List Chip} → some x ≡ some y → x ≡ y
    some_inj e = cc

find_chips-IsTimed :
    (sys : Sysfs) (root : Bytes) (max : ℕ) {cs : List Chip}
    → find_chips sys root max ≡ some cs
    → AreTimed max cs
unfolding find_chips
find_chips-IsTimed sys root max h =
    listed-IsTimed sys (class_dir_of root) max (sys.dir (class_dir_of root)) h

-- A nap that is worth making, and at most an hour.
abbrev pub IsNap : ℕ → Type 0
IsNap ms = (0 < ms) × (ms ≤ guard_max_interval_ms)

-- Naps of which there are at most `n`.
abbrev Few : ℕ → List ℕ → Type 0
Few n ms = All IsNap ms × (length ms ≤ n)

nap-Few :
    (more : Bool) (gap : ℕ) → gap ≤ guard_max_interval_ms → Few 1 (if more then nap gap else [])
nap-Few false gap h = (_, omega arith)
nap-Few true gap h = elim (Bool-cases (gap == 0)) [
  | inl still ↦ rw still (_, omega arith)
  | inr some_time ↦ rw some_time (((ground arith, h), _), omega arith)
]

Few-le : (m n : ℕ) (s : List ℕ) → m ≤ n → Few m s → Few n s
Few-le m n s h few = (few.0, omega (arith, few.1))

Few-append : (m n : ℕ) (s t : List ℕ) → Few m s → Few n t → Few (m + n) (s ++ t)
Few-append m n s t h k = (All-append IsNap s t h.0 k.0, omega (arith, length-append s t, h.1, k.1))

after_read-Few :
    (o : Option Sample) (more : Bool) (gap n : ℕ) (rest : Sampling)
    → gap ≤ guard_max_interval_ms
    → Few n rest.naps
    → Few (1 + n) (after_read o more gap rest).naps
after_read-Few none more gap n rest h few = (_, omega arith)
after_read-Few (some s) more gap n rest h few =
    Few-append 1 n (if more then nap gap else []) rest.naps (nap-Few more gap h) few

after_last :
    (o : Option Sample) (gap : ℕ) (rest : Sampling)
    → rest.naps ≡ []
    → (after_read o false gap rest).naps ≡ []
after_last none gap rest h = refl
after_last (some s) gap rest h = h

sample_loop-Few :
    (view : ℕ → Sysfs) (stack : Sample) (c : Chip) (gap k left : ℕ)
    → gap ≤ guard_max_interval_ms
    → Few left (sample_loop view stack c gap k (suc left)).naps
unfolding sample_loop
sample_loop-Few view stack c gap k zero h =
    subst (Few 0)
      (sym (
        after_last (read_sample (view k) c stack) gap (sample_loop view stack c gap (suc k) 0)
          refl))
      (_, omega arith)
sample_loop-Few view stack c gap k (suc left) h = Few-le (1 + left) (suc left) _ (omega arith) (
    after_read-Few (read_sample (view k) c stack) (ltb 0 (suc left)) gap left
      (sample_loop view stack c gap (suc k) (suc left)) h
      (sample_loop-Few view stack c gap (suc k) left h))

gap_of_le :
    (cfg : Config) (c : Chip)
    → cfg.interval ≤ guard_max_interval_ms
    → IsTimed c
    → gap_of cfg c ≤ guard_max_interval_ms
gap_of_le cfg c h k = ground arith

four_chips : (n left : ℕ) → n ≤ 4 → left ≤ 31 → n * left ≤ 124
four_chips n left h k = grind arith

module _ (cfg : Config) (views : ℕ → ℕ → Sysfs) (stack : Sample) (left : ℕ)
    (n : cfg.samples ≡ suc left) (short : cfg.interval ≤ guard_max_interval_ms) where
  sampled-Few : (i : ℕ) (c : Chip) → IsTimed c → Few left (sampling_of cfg views stack i c).naps
  unfolding sampled
  sampled-Few i c timed =
      rw n (sample_loop-Few (views i) stack c (gap_of cfg c) 0 left (gap_of_le cfg c short timed))

  chip_loop-Few :
      (i : ℕ) (cs : List Chip) (run : Run) (m : ℕ)
      → All IsTimed cs
      → Few m run.naps
      → Few (m + length cs * left) (chip_loop cfg views stack i cs run).naps
  unfolding chip_loop
  chip_loop-Few i [] run m timed few = (few.0, omega (arith, few.1))
  chip_loop-Few i (c ∷ cs) run m timed few =
      let rest = chip_loop-Few (suc i) cs _ (m + left) timed.1 (
        Few-append m left run.naps (sampling_of cfg views stack i c).naps few
          (sampled-Few i c timed.0)) in
      (rest.0, grind (arith, rest.1))

  check_chips-Few :
      (o : Option (List Chip))
      → ((cs : List Chip) → o ≡ some cs → AreTimed guard_max_chips cs)
      → left ≤ 31
      → Few 124 (check_chips cfg views stack o).naps
  unfolding check_chips
  check_chips-Few none timed small = (_, omega arith)
  check_chips-Few (some []) timed small = (_, omega arith)
  check_chips-Few (some (c ∷ cs)) timed small =
      let ok = timed (c ∷ cs) refl in
      let few = chip_loop-Few 0 (c ∷ cs) (started cfg) 0 ok.0 (_, omega arith) in
      Few-le (0 + length (c ∷ cs) * left) 124 _
        (omega (arith, four_chips (length (c ∷ cs)) left ok.1 small)) few

one_less : (n : ℕ) → 1 ≤ n → n ≤ 32 → (m : ℕ) × (n ≡ suc m) × (m ≤ 31)
one_less zero h k = absurd (omega arith)
one_less (suc m) h k = (m, refl, omega arith)

-- Whatever the command line, the file system and the outcome, a run naps at most 124 times, each
-- time for at least a millisecond and at most an hour.
pub main-naps :
    (VERSION : Bytes) (sys : Sysfs) (views : ℕ → ℕ → Sysfs) (stack : Sample) (args : List Bytes)
    → All IsNap (main VERSION sys views stack args).naps
      × (length (main VERSION sys views stack args).naps ≤ 124)
unfolding main
main-naps VERSION sys views stack args =
    by_parsed (parse_args VERSION default_config args)
      (λ cfg e. parse_args-IsRunnable VERSION args e)
  where
    by_parsed :
        (p : Parsed)
        → ((cfg : Config) → p ≡ Parsed.go cfg → IsRunnable cfg)
        → Few 124 (carried_out sys views stack p).naps
    by_parsed (Parsed.stop out err level) h = (_, omega arith)
    by_parsed (Parsed.go cfg) h =
        let (samples, interval, armed) = h cfg refl in
        let (left, n, small) = one_less cfg.samples samples.0 samples.1 in
        check_chips-Few cfg views stack left n interval.1
          (find_chips sys cfg.sysfs_root guard_max_chips)
          (λ cs e. find_chips-IsTimed sys cfg.sysfs_root guard_max_chips e) small
