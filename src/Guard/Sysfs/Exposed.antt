-- ===== src/Guard/Sysfs/Exposed.antt =====
-- A sample as the driver's attributes show it, and what a sample that was read can hold.
use astral_hwmon.Base.{
  ℕ, ◌≤◌, ◌≡◌, refl, ap, ◌∙◌, fun_ext, ◌⊎◌, inl, inr, true, Option, none, some, List, [], ◌∷◌,
  arith, Bool-cases, Pin, pin1, pin2, pin3, pin4, pin5, pin6, pins, same_pin,
}
use mathlib.Core.Path.{subst}
use astral_hwmon.Base.Text.{Bytes, codes, decimal, snprintf}
use astral_hwmon.Base.Scan.{decimal-length}
use astral_hwmon.Guard.Types.{Sample, Chip, guard_mv_min, guard_mv_max, guard_ma_max}
use astral_hwmon.Guard.Sysfs.{
  Sysfs, attr_path, read_int_attr, in_attr, curr_attr, store_mv, store_ma, ◌>>=◌, read_pin,
  read_pins, read_sample,
}
use astral_hwmon.Guard.Sysfs.Attr.{attr_text, read_int_attr-attr_text, read_int_attr-bounds}
use astral_hwmon.Driver.Regs.{Frame}
use astral_hwmon.Driver.Regs.Plausible.{IsPlausible}

-- The files of the channels as the hwmon core names them: voltages from in0, currents from curr1.
abbrev pub in_file : Pin → Bytes
in_file pin1 = codes "in0_input"
in_file pin2 = codes "in1_input"
in_file pin3 = codes "in2_input"
in_file pin4 = codes "in3_input"
in_file pin5 = codes "in4_input"
in_file pin6 = codes "in5_input"

abbrev pub curr_file : Pin → Bytes
curr_file pin1 = codes "curr1_input"
curr_file pin2 = codes "curr2_input"
curr_file pin3 = codes "curr3_input"
curr_file pin4 = codes "curr4_input"
curr_file pin5 = codes "curr5_input"
curr_file pin6 = codes "curr6_input"

in_attr-in_file : (p : Pin) → in_attr p ≡ in_file p
unfolding decimal snprintf
in_attr-in_file pin1 = refl
in_attr-in_file p = refl

curr_attr-curr_file : (p : Pin) → curr_attr p ≡ curr_file p
unfolding decimal snprintf
curr_attr-curr_file pin1 = refl
curr_attr-curr_file p = refl

-- The files of a chip show a frame: each channel's number and a newline, as the hwmon core writes
-- what `astral_read` returns.
pub record Exposes (sys : Sysfs) (c : Chip) (f : Frame) : Type 0 where
  pub in_input :
      (p : Pin) → sys.file (attr_path c.path (in_file p)) ≡ some (attr_text (f.millivolts p))
  pub curr_input :
      (p : Pin) → sys.file (attr_path c.path (curr_file p)) ≡ some (attr_text (f.milliamps p))

abbrev pub sample_of : Frame → Sample
sample_of f = record { mv = f.millivolts; ma = f.milliamps }

-- After the six rounds every pin is stored.
abbrev stored : Frame → Sample → Pin → Sample
stored f out p = store_ma (store_mv out p (f.millivolts p)) p (f.milliamps p)

filled :
    (f : Frame) (out : Sample)
    → stored f
        (stored f (stored f (stored f (stored f (stored f out pin1) pin2) pin3) pin4) pin5)
        pin6
      ≡ sample_of f
filled f out = λ i. record { mv = fun_ext mv i; ma = fun_ext ma i }
  where
    full : Sample
    full =
        stored f (stored f (stored f (stored f (stored f (stored f out pin1) pin2) pin3) pin4) pin5)
          pin6

    mv : (p : Pin) → full.mv p ≡ f.millivolts p
    mv pin1 = refl
    mv p = refl

    ma : (p : Pin) → full.ma p ≡ f.milliamps p
    ma pin1 = refl
    ma p = refl

module _ (sys : Sysfs) (c : Chip) (f : Frame) (shown : Exposes sys c f) (good : IsPlausible f) where
  read_mv :
      (p : Pin)
      → read_int_attr sys c.path (in_file p) guard_mv_min guard_mv_max ≡ some (f.millivolts p)
  read_mv p =
      let r = good p in
      read_int_attr-attr_text sys c.path (in_file p) guard_mv_min guard_mv_max (f.millivolts p)
        (shown.in_input p) (omega (arith, decimal-length 4 (f.millivolts p) (omega arith)))
        (omega arith)
      ∙ ground arith

  read_ma : (p : Pin) → read_int_attr sys c.path (curr_file p) 0 guard_ma_max ≡ some (f.milliamps p)
  read_ma p =
      let r = good p in
      read_int_attr-attr_text sys c.path (curr_file p) 0 guard_ma_max (f.milliamps p)
        (shown.curr_input p) (omega (arith, decimal-length 4 (f.milliamps p) (omega arith)))
        (omega arith)
      ∙ ground arith

  read_pin-shown :
      (out : Sample) (p : Pin)
      → read_pin sys c out p ≡ some (store_ma (store_mv out p (f.millivolts p)) p (f.milliamps p))
  unfolding read_pin
  read_pin-shown out p = rw (in_attr-in_file p, curr_attr-curr_file p, read_mv p, read_ma p)

  -- A plausible frame that the driver publishes is the sample that the guard reads: pin by pin the
  -- same millivolts and milliamps, whatever the sample held before.
  pub read_sample-shown : (out : Sample) → read_sample sys c out ≡ some (sample_of f)
  unfolding read_sample
  read_sample-shown out = simp read_pin-shown (ap some (filled f out))

-- What a sample holds for a pin is what the two files of the pin give, and is in range.
pub record IsReading (sys : Sysfs) (c : Chip) (s : Sample) (p : Pin) : Type 0 where
  pub mv_read : read_int_attr sys c.path (in_file p) guard_mv_min guard_mv_max ≡ some (s.mv p)
  pub ma_read : read_int_attr sys c.path (curr_file p) 0 guard_ma_max ≡ some (s.ma p)
  pub mv_ge_min : guard_mv_min ≤ s.mv p
  pub mv_le_max : s.mv p ≤ guard_mv_max
  pub ma_le_max : s.ma p ≤ guard_ma_max

abbrev Among : Pin → List Pin → Type 0
Among q [] = ⊥
Among q (p ∷ ps) = (p ≡ q) ⊎ Among q ps

same_pin_refl : (p : Pin) → same_pin p p ≡ true
same_pin_refl pin1 = refl
same_pin_refl p = refl

same_pin-eq : (p q : Pin) → same_pin p q ≡ true → p ≡ q
same_pin-eq pin1 pin1 h = refl
same_pin-eq pin2 pin2 h = refl
same_pin-eq pin3 pin3 h = refl
same_pin-eq pin4 pin4 h = refl
same_pin-eq pin5 pin5 h = refl
same_pin-eq pin6 pin6 h = refl
same_pin-eq p q h = cc

some_inj : {s t : Sample} → some s ≡ some t → s ≡ t
some_inj h = cc

-- Inversion of a successful bind.
>>=-eq-some {ℓ κ} :
    {A : Type ℓ} {B : Type κ} (o : Option A) (f : A → Option B) {b : B}
    → (o >>= f) ≡ some b
    → (a : A) × (o ≡ some a) × (f a ≡ some b)
>>=-eq-some none f h = cc
>>=-eq-some (some a) f h = (a, refl, h)

module _ (sys : Sysfs) (c : Chip) where
  fresh-IsReading :
      (s : Sample) (p : Pin)
      → read_int_attr sys c.path (in_attr p) guard_mv_min guard_mv_max ≡ some (s.mv p)
      → read_int_attr sys c.path (curr_attr p) 0 guard_ma_max ≡ some (s.ma p)
      → IsReading sys c s p
  fresh-IsReading s p mv ma =
      let v = read_int_attr-bounds sys c.path (in_attr p) guard_mv_min guard_mv_max mv in
      let a = read_int_attr-bounds sys c.path (curr_attr p) 0 guard_ma_max ma in
      record {
        mv_read = rw (in_attr-in_file p) at mv;
        ma_read = rw (curr_attr-curr_file p) at ma;
        mv_ge_min = v.0;
        mv_le_max = v.1;
        ma_le_max = a.1;
      }

  stored_here :
      (out : Sample) (p q : Pin) (mv ma : ℕ)
      → read_int_attr sys c.path (in_attr p) guard_mv_min guard_mv_max ≡ some mv
      → read_int_attr sys c.path (curr_attr p) 0 guard_ma_max ≡ some ma
      → p ≡ q
      → IsReading sys c (store_ma (store_mv out p mv) p ma) q
  stored_here out p q mv ma has_mv has_ma here =
      subst (IsReading sys c (store_ma (store_mv out p mv) p ma)) here (
        fresh-IsReading (store_ma (store_mv out p mv) p ma) p (rw (same_pin_refl p) has_mv)
          (rw (same_pin_refl p) has_ma))

  stored-IsReading :
      (out : Sample) (p q : Pin) (mv ma : ℕ)
      → read_int_attr sys c.path (in_attr p) guard_mv_min guard_mv_max ≡ some mv
      → read_int_attr sys c.path (curr_attr p) 0 guard_ma_max ≡ some ma
      → IsReading sys c out q ⊎ (p ≡ q)
      → IsReading sys c (store_ma (store_mv out p mv) p ma) q
  stored-IsReading out p q mv ma has_mv has_ma (inr here) =
      stored_here out p q mv ma has_mv has_ma here
  stored-IsReading out p q mv ma has_mv has_ma (inl r) = elim (Bool-cases (same_pin p q)) [
    | inl same ↦ stored_here out p q mv ma has_mv has_ma (same_pin-eq p q same)
    | inr other ↦ record {
      mv_read = rw other r.mv_read;
      ma_read = rw other r.ma_read;
      mv_ge_min = rw other r.mv_ge_min;
      mv_le_max = rw other r.mv_le_max;
      ma_le_max = rw other r.ma_le_max;
    }
  ]

  read_pin-IsReading :
      (out : Sample) (p : Pin) {s : Sample}
      → read_pin sys c out p ≡ some s
      → (q : Pin) → IsReading sys c out q ⊎ (p ≡ q)
      → IsReading sys c s q
  unfolding read_pin
  read_pin-IsReading out p e q h =
      let (mv, has_mv, rest) =
        >>=-eq-some (read_int_attr sys c.path (in_attr p) guard_mv_min guard_mv_max) _ e in
      let (ma, has_ma, done) =
        >>=-eq-some (read_int_attr sys c.path (curr_attr p) 0 guard_ma_max) _ rest in
      subst (λ s. IsReading sys c s q) (some_inj done)
        (stored-IsReading out p q mv ma has_mv has_ma h)

  read_pins-IsReading :
      (ps : List Pin) (out : Sample) {s : Sample}
      → read_pins sys c out ps ≡ some s
      → (q : Pin) → IsReading sys c out q ⊎ Among q ps
      → IsReading sys c s q
  unfolding read_pins
  read_pins-IsReading [] out e q (inl r) = subst (λ s. IsReading sys c s q) (some_inj e) r
  read_pins-IsReading [] out e q (inr k) = absurd k
  read_pins-IsReading (p ∷ ps) out e q h =
      let (out', first, rest) = >>=-eq-some (read_pin sys c out p) _ e in
      read_pins-IsReading ps out' rest q (elim h [
        | inl r ↦ inl (read_pin-IsReading out p first q (inl r))
        | inr k ↦ elim k [
          | inl here ↦ inl (read_pin-IsReading out p first q (inr here))
          | inr later ↦ inr later
        ]
      ])

Among-pins : (p : Pin) → Among p pins
Among-pins pin1 = inl refl
Among-pins pin2 = inr (inl refl)
Among-pins pin3 = inr (inr (inl refl))
Among-pins pin4 = inr (inr (inr (inl refl)))
Among-pins pin5 = inr (inr (inr (inr (inl refl))))
Among-pins pin6 = inr (inr (inr (inr (inr (inl refl)))))

-- Where a sample is read, each pin's voltage and current are the numbers that its own two files
-- give, a voltage from 6000 to 13000 mV and a current of at most 30000 mA: if any of the twelve
-- files cannot be read so, there is no sample.
pub read_sample-IsReading :
    (sys : Sysfs) (c : Chip) (out : Sample) (p : Pin) {s : Sample}
    → read_sample sys c out ≡ some s
    → IsReading sys c s p
unfolding read_sample
read_sample-IsReading sys c out p h = read_pins-IsReading sys c pins out h p (inr (Among-pins p))
