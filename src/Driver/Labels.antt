-- ===== src/Driver/Labels.antt =====
-- driver/astral_hwmon.c: the labels of the channels, `astral_read_string`, `astral_is_visible` and
-- the channels that `astral_info` lists.
use astral_hwmon.Base.{
  ℕ, zero, suc, ◌+◌, ◌≤◌, ◌≡◌, refl, sym, ap, ◌∙◌, ◌≢◌, ◌⊎◌, ◌↔◌, inl, inr, true, false, Bool-cases,
  arith, Option, none, some, List, [], ◌∷◌, ◌++◌, pin_at-index, Pin, pin1, pin2, pin3, pin4, pin5,
  pin6, index,
}
use astral_hwmon.Base.Int.{ℤ, pos, negsuc}
use astral_hwmon.Base.Text.{Bytes, codes, decimal}
use astral_hwmon.Driver.Regs.{Frame, read_frame, Result, ok, err}
use astral_hwmon.Driver.Cache.{
  einval, eopnotsupp, Data, Moment, SensorType, hwmon_chip, hwmon_in, hwmon_curr, Attr, Request,
  channel_pin, Reading, select, answer, refresh_locked, commit, cache_hit, read_channel, read_as,
  read,
}
use astral_hwmon.Driver.Cache.Traffic.{read-hit}
use astral_hwmon.Driver.Cache.Burst.{
  Channel, voltage_of, current_of, request_of, channel_pin_of, value_of, request_of-IsChannel,
  select-value_of,
}

abbrev pub in_labels : Pin → Bytes
in_labels pin1 = codes "12VHPWR Pin1 Voltage"
in_labels pin2 = codes "12VHPWR Pin2 Voltage"
in_labels pin3 = codes "12VHPWR Pin3 Voltage"
in_labels pin4 = codes "12VHPWR Pin4 Voltage"
in_labels pin5 = codes "12VHPWR Pin5 Voltage"
in_labels pin6 = codes "12VHPWR Pin6 Voltage"

abbrev pub curr_labels : Pin → Bytes
curr_labels pin1 = codes "12VHPWR Pin1 Current"
curr_labels pin2 = codes "12VHPWR Pin2 Current"
curr_labels pin3 = codes "12VHPWR Pin3 Current"
curr_labels pin4 = codes "12VHPWR Pin4 Current"
curr_labels pin5 = codes "12VHPWR Pin5 Current"
curr_labels pin6 = codes "12VHPWR Pin6 Current"

unfoldable pub label_of : SensorType → Pin → Result Bytes
label_of hwmon_in channel = ok (in_labels channel)
label_of hwmon_curr channel = ok (curr_labels channel)
label_of _ channel = err eopnotsupp

unfoldable pub read_string_at : SensorType → Option Pin → Result Bytes
unfolding label_of
read_string_at type none = err einval
read_string_at type (some channel) = label_of type channel

-- `astral_read_string`
unfoldable pub read_string : SensorType → ℤ → Result Bytes
unfolding read_string_at
read_string type channel = read_string_at type (channel_pin channel)

-- The mode of every attribute: 0444.
unfoldable pub is_visible : SensorType → Attr → ℤ → ℕ
is_visible type attr channel = 0o444

pub data Flag : Type 0 where
  update_interval input label : Flag

-- `astral_info`: the attributes of each channel of each type.
unfoldable pub info : List (SensorType × List (List Flag))
info =
    let both : List Flag = input ∷ label ∷ [] in
    (hwmon_chip, (update_interval ∷ []) ∷ [])
    ∷ (hwmon_in, both ∷ both ∷ both ∷ both ∷ both ∷ both ∷ [])
    ∷ (hwmon_curr, both ∷ both ∷ both ∷ both ∷ both ∷ both ∷ [])
    ∷ []

label_number :
    (p : Pin)
    → (in_labels p ≡ codes "12VHPWR Pin" ++ decimal (index p + 1) ++ codes " Voltage")
      × (curr_labels p ≡ codes "12VHPWR Pin" ++ decimal (index p + 1) ++ codes " Current")
unfolding decimal
label_number pin1 = (refl, refl)
label_number p = (refl, refl)

-- Channel `n` of either type is the pin with index `n`: its label counts the pins from 1, and a
-- read that is served from the cache takes the value from that pin of the frame.
pub read_string-read :
    (ttl : ℕ) (u : Frame) (d : Data) (m : Moment) (p : Pin)
    → cache_hit ttl d m.now ≡ true
    → (read_string hwmon_in (pos (index p))
        ≡ ok (codes "12VHPWR Pin" ++ decimal (index p + 1) ++ codes " Voltage"))
      × (read_string hwmon_curr (pos (index p))
          ≡ ok (codes "12VHPWR Pin" ++ decimal (index p + 1) ++ codes " Current"))
      × ((read ttl u d (request_of (voltage_of p)) m).result ≡ ok (d.frame.millivolts p))
      × ((read ttl u d (request_of (current_of p)) m).result ≡ ok (d.frame.milliamps p))
unfolding read_string
read_string-read ttl u d m p hit = (
  rw (pin_at-index p) (ap ok (label_number p).0),
  rw (pin_at-index p) (ap ok (label_number p).1),
  value (voltage_of p),
  value (current_of p),
)
  where
    value : (c : Channel) → (read ttl u d (request_of c) m).result ≡ ok (value_of d.frame c)
    value c =
        ap (λ (r : Reading). r.result)
          (read-hit ttl u d (request_of c) (channel_pin_of c) m (request_of-IsChannel c) hit)
        ∙ select-value_of d.frame c

read_as-channel :
    (ttl : ℕ) (u : Frame) (d : Data) (type : SensorType) (a : Attr) (c : ℤ) (m : Moment)
    → type ≢ hwmon_chip
    → read_as ttl u d type a c m ≡ read_channel ttl u d type (channel_pin c) m
unfolding read_as
read_as-channel ttl u d hwmon_chip a c m other = absurd (other refl)
read_as-channel ttl u d type a c m other = refl

-- No channel: there are six, from 0.
abbrev pub OutOfRange : ℤ → Type 0
OutOfRange (negsuc n) = Unit {0}
OutOfRange (pos n) = 6 ≤ n

channel_cases :
    (c : ℤ)
    → (OutOfRange c × (channel_pin c ≡ none))
      ⊎ ((¬ OutOfRange c) × ((p : Pin) × (channel_pin c ≡ some p)))
channel_cases (negsuc n) = inl (_, refl)
channel_cases (pos zero) = inr ((λ h. omega arith), (pin1, refl))
channel_cases (pos (suc zero)) = inr ((λ h. omega arith), (pin2, refl))
channel_cases (pos (suc (suc zero))) = inr ((λ h. omega arith), (pin3, refl))
channel_cases (pos (suc (suc (suc zero)))) = inr ((λ h. omega arith), (pin4, refl))
channel_cases (pos (suc (suc (suc (suc zero))))) = inr ((λ h. omega arith), (pin5, refl))
channel_cases (pos (suc (suc (suc (suc (suc zero)))))) = inr ((λ h. omega arith), (pin6, refl))
channel_cases (pos (suc (suc (suc (suc (suc (suc n))))))) = inl (omega arith, refl)

label_of-ne : (type : SensorType) (p : Pin) → label_of type p ≢ err einval
unfolding label_of
label_of-ne hwmon_in p h = cc
label_of-ne hwmon_curr p h = cc
label_of-ne type p h = ground arith

-- What is returned for a channel that does not exist.
abbrev pub untouched : Data → Reading
untouched d = record { cache = d; result = err einval; traffic = false }

commit-traffic : (d : Data) (m : Moment) (r : Result Frame) → (commit d m r).traffic ≡ true
unfolding commit
commit-traffic d m (err e) = refl
commit-traffic d m (ok fresh) = ground arith

select-ne : (type : SensorType) (f : Frame) (p : Pin) → select type f p ≢ err einval
unfolding select
select-ne hwmon_in f p h = cc
select-ne hwmon_curr f p h = cc
select-ne type f p h = ground arith

module _ (ttl : ℕ) (u : Frame) where
  read_channel-ne :
      (d : Data) (type : SensorType) (p : Pin) (m : Moment)
      → read_channel ttl u d type (some p) m ≢ untouched d
  unfolding read_channel answer refresh_locked
  read_channel-ne d type p m = elim (Bool-cases (cache_hit ttl d m.now)) [
    | inl hit ↦ rw hit (λ h. select-ne type d.frame p (ap (λ (r : Reading). r.result) h))
    | inr miss ↦
        rw miss (λ h.
          cc (commit-traffic d m (read_frame m.transfer u), ap (λ (r : Reading). r.traffic) h))
  ]

  -- Of a sensor type other than the chip's own, whose read of the interval takes any channel, a read
  -- returns -EINVAL with the bus and the cache untouched exactly when the channel is negative or above
  -- 5, and its label is refused with -EINVAL exactly for these channels.
  pub OutOfRange-iff :
      (d : Data) (q : Request) (m : Moment)
      → q.type ≢ hwmon_chip
      → ((read ttl u d q m ≡ untouched d) ↔ OutOfRange q.channel)
        × ((read_string q.type q.channel ≡ err einval) ↔ OutOfRange q.channel)
  unfolding read_string read read_string_at
  OutOfRange-iff d q m other =
      let direct = read_as-channel ttl u d q.type q.attr q.channel m other in
      elim (channel_cases q.channel) [
        | inl (out, none_there) ↦ (
          ((λ h. out), (λ h. direct ∙ unfold read_channel in rw none_there)),
          ((λ h. out), (λ h. rw none_there)),
        )
        | inr (fits, (p, there)) ↦ (
          (
            (λ h. absurd (
                read_channel-ne d q.type p m
                  (sym (ap (λ o. read_channel ttl u d q.type o m) there) ∙ sym direct ∙ h))),
            (λ h. absurd (fits h)),
          ),
          (
            (λ h. absurd (label_of-ne q.type p (sym (ap (read_string_at q.type) there) ∙ h))),
            (λ h. absurd (fits h)),
          ),
        )
      ]
