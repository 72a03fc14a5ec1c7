-- ===== src/Driver/Examples.antt =====
-- Concrete runs of the driver: the theorems at one card, one frame and one time each.
use astral_hwmon.Base.{
  none, some, ℕ, ◌+◌, ◌^◌, ◌≤◌, ◌<◌, ◌≡◌, refl, ◌≢◌, ◌↔◌, ◌⊎◌, inl, inr, true, false, ◌&&◌, List,
  [], ◌∷◌, ◌++◌, map, arith, ◌==◌, Any, All, pin1, pin2,
}
use astral_hwmon.Base.Int.{pos}
use astral_hwmon.Base.Text.{codes, decimal}
use astral_hwmon.Driver.Regs.{
  Frame, frame_plausible, read_frame, decode_frame, u16_be, fault, block, ok, err,
}
use astral_hwmon.Driver.Regs.Codec.{encode_frame, IsU16Frame, decode_frame-encode_frame}
use astral_hwmon.Driver.Regs.Plausible.{IsPlausible, frame_plausible_iff}
use astral_hwmon.Driver.Detect.{
  Adapter, pci, not_pci, PciDev, PciBus, card_matches, card_present, is_sensor_adapter,
  adapter_format,
}
use astral_hwmon.Driver.Detect.Gate.{
  Present, IsAllowed, Enumerates, card_matches_iff, card_present_iff,
}
use astral_hwmon.Driver.Detect.Names.{is_sensor_adapter-number}
use astral_hwmon.Driver.Cache.{
  einval, Data, zeroed, Moment, commit, hwmon_in, hwmon_curr, attr_other, Request, cache_hit,
  refresh_locked, read,
}
use astral_hwmon.Driver.Cache.Clock.{age, cache_hit_iff}
use astral_hwmon.Driver.Cache.Sound.{IsReply, replies, replies_from_zeroed}
use astral_hwmon.Driver.Cache.Traffic.{cache_hit-invalid, voltage, read-miss, reply_of}
use astral_hwmon.Driver.Cache.Burst.{
  Channel, voltage_of, current_of, request_of, value_of, serve, transactions, one_transaction,
  traffic_spacing, failing_traffic,
}
use astral_hwmon.Driver.Labels.{
  read_string, read_string-read, untouched, OutOfRange, OutOfRange-iff,
}
use astral_hwmon.Driver.Lifecycle.{settling, attach_result}
use astral_hwmon.Driver.Lifecycle.Attach.{IsAnswer, attach_result-IsAnswer}

-- A healthy frame, its block, and what an output frame may hold before it is filled.
abbrev healthy : Frame
healthy = record { millivolts = λ _. 12000; milliamps = λ _. 8000 }

abbrev healthy_block : List ℕ
healthy_block =
    46 ∷ 224 ∷ 31 ∷ 64 ∷ 46 ∷ 224 ∷ 31 ∷ 64 ∷ 46 ∷ 224 ∷ 31 ∷ 64 ∷ 46 ∷ 224 ∷ 31 ∷ 64 ∷ 46 ∷ 224
    ∷ 31 ∷ 64 ∷ 46 ∷ 224 ∷ 31 ∷ 64 ∷ []

abbrev garbage : Frame
garbage = record { millivolts = λ _. 1; milliamps = λ _. 2 }

-- 200 ms at 250 jiffies a second.
abbrev ttl_250hz : ℕ
ttl_250hz = 50

abbrev good_moment : Moment
good_moment = record { now = 1000; later = 1001; transfer = block healthy_block }

abbrev late_moment : Moment
late_moment = record { now = 1010; later = 1010; transfer = fault 5 }

abbrev stale_moment : Moment
stale_moment = record { now = 1060; later = 1060; transfer = fault 5 }

abbrev cached : Data
cached = record { frame = healthy; last_updated = 1001; valid = true }

abbrev first_voltage : Request
first_voltage = record { type = hwmon_in; attr = attr_other; channel = pos 0 }

zeroed_missed : (now : ℕ) → cache_hit ttl_250hz zeroed now ≡ false
zeroed_missed now = cache_hit-invalid ttl_250hz zeroed now refl

healthy_passes : frame_plausible (decode_frame healthy_block garbage) ≡ true
unfolding frame_plausible decode_frame u16_be
healthy_passes = refl

cached_hits : cache_hit ttl_250hz cached 1010 ≡ true
unfolding cache_hit
cached_hits = refl

cached_missed : cache_hit ttl_250hz cached 1060 ≡ false
unfolding cache_hit
cached_missed = refl

replies_example :
    All
      (λ r. IsReply garbage r.last r.asked.type r.asked.channel r.result)
      (replies ttl_250hz garbage zeroed none
        ((first_voltage, good_moment) ∷ (first_voltage, stale_moment) ∷ []))
replies_example =
    replies_from_zeroed ttl_250hz garbage
      ((first_voltage, good_moment) ∷ (first_voltage, stale_moment) ∷ [])

burst_example :
    (serve ttl_250hz garbage zeroed
        ((voltage_of pin1, good_moment) ∷ (current_of pin2, late_moment) ∷ [])
      ≡ map
          (λ (c : Channel × Moment). ok (value_of (decode_frame healthy_block garbage) c.0))
          ((voltage_of pin1, good_moment) ∷ (current_of pin2, late_moment) ∷ []))
    × (transactions ttl_250hz garbage zeroed
          ((voltage_of pin1, good_moment) ∷ (current_of pin2, late_moment) ∷ [])
        ≡ 1)
burst_example =
    one_transaction ttl_250hz garbage zeroed (voltage_of pin1) good_moment
      ((current_of pin2, late_moment) ∷ []) healthy_block (omega arith) (zeroed_missed 1000) refl
      refl healthy_passes (omega arith) ((omega arith, omega arith), tt)

stale_traffic :
    (read ttl_250hz garbage cached (request_of (voltage_of pin1)) stale_moment).traffic ≡ true
stale_traffic =
    (read-miss ttl_250hz garbage cached (request_of (voltage_of pin1)) pin1 stale_moment
      (voltage refl refl) cached_missed).1

spacing_example : ttl_250hz ≤ age 1001 1060
spacing_example =
    traffic_spacing ttl_250hz garbage cached (voltage_of pin1) stale_moment (omega arith) refl
      (omega arith) (omega arith) stale_traffic

miss_example :
    ((read ttl_250hz garbage zeroed first_voltage good_moment).result
      ≡ reply_of hwmon_in pin1 garbage (block healthy_block))
    × ((read ttl_250hz garbage zeroed first_voltage good_moment).traffic ≡ true)
miss_example =
    read-miss ttl_250hz garbage zeroed first_voltage pin1 good_moment (voltage refl refl)
      (zeroed_missed 1000)

fault_ret : (refresh_locked ttl_250hz garbage zeroed stale_moment).ret ≢ 0
unfolding refresh_locked cache_hit commit read_frame
fault_ret e = omega (arith, e)

failing_example :
    (read ttl_250hz garbage
      (read ttl_250hz garbage zeroed (request_of (voltage_of pin1)) stale_moment).cache
      (request_of (current_of pin1))
      stale_moment).traffic
    ≡ true
failing_example =
    failing_traffic ttl_250hz garbage zeroed (voltage_of pin1) (current_of pin1) stale_moment
      stale_moment (zeroed_missed 1060) fault_ret

hit_example :
    (cache_hit ttl_250hz cached 1010 ≡ true)
    ↔ ((true ≡ true) × ((age 1001 1010 < ttl_250hz) ⊎ (ttl_250hz + 2 ^ 63 ≤ age 1001 1010)))
hit_example = cache_hit_iff ttl_250hz cached 1010 (omega arith) (omega arith) (omega arith)

healthy-IsU16Frame : IsU16Frame healthy
healthy-IsU16Frame = record { millivolts_u16 = λ p. omega arith; milliamps_u16 = λ p. omega arith }

codec_example : decode_frame (encode_frame healthy) garbage ≡ healthy
codec_example = decode_frame-encode_frame healthy garbage healthy-IsU16Frame

frame_ok_example : (frame_plausible healthy ≡ true) ↔ IsPlausible healthy
frame_ok_example = frame_plausible_iff healthy

abbrev astral_5090 : PciDev
astral_5090 = record { vendor = 0x10de; subsystem_vendor = 0x1043; subsystem_device = 0x89e3 }

abbrev sensor_adapter : Adapter
sensor_adapter = record {
  id = 3;
  name = codes "NVIDIA i2c adapter 1 at 1:00.0";
  parent = pci astral_5090;
}

gate_example : Present (card_matches sensor_adapter false) ↔ IsAllowed false (pci astral_5090)
gate_example = card_matches_iff sensor_adapter false

-- A machine with this one card.
abbrev one_card : PciBus
one_card = record {
  get_subsys = λ vendor sv sd. 0x10de == vendor && (sv == 0x1043 && sd == 0x89e3);
  get_device = λ vendor. 0x10de == vendor;
}

one_card-Enumerates : Enumerates one_card (astral_5090 ∷ [])
one_card-Enumerates = record {
  subsys = λ vendor sv sd h k l. (
    (λ h. inl (ground arith)),
    (λ h. elim h [ inl e ↦ ground arith | inr none_there ↦ absurd none_there ]),
  );
  device = λ vendor h. (
    (λ h. inl (ground arith)),
    (λ h. elim h [ inl e ↦ ground arith | inr none_there ↦ absurd none_there ]),
  );
}

stage1_example :
    Present (card_present one_card false) ↔ Any (λ d. IsAllowed false (pci d)) (astral_5090 ∷ [])
stage1_example = card_present_iff one_card (astral_5090 ∷ []) one_card-Enumerates false

adapter_example :
    is_sensor_adapter (record {
      id = 3;
      name = adapter_format ++ (decimal 10 ++ codes " at 1:00.0");
      parent = not_pci;
    })
    ≡ false
adapter_example = is_sensor_adapter-number 3 10 not_pci (codes " at 1:00.0") refl

label_example :
    (read_string hwmon_in (pos 1) ≡ ok (codes "12VHPWR Pin" ++ decimal 2 ++ codes " Voltage"))
    × (read_string hwmon_curr (pos 1) ≡ ok (codes "12VHPWR Pin" ++ decimal 2 ++ codes " Current"))
    × ((read ttl_250hz garbage cached (request_of (voltage_of pin2)) late_moment).result ≡ ok 12000)
    × ((read ttl_250hz garbage cached (request_of (current_of pin2)) late_moment).result ≡ ok 8000)
label_example = read_string-read ttl_250hz garbage cached late_moment pin2 cached_hits

abbrev seventh : Request
seventh = record { type = hwmon_curr; attr = attr_other; channel = pos 6 }

range_example :
    ((read ttl_250hz garbage cached seventh late_moment ≡ untouched cached) ↔ OutOfRange (pos 6))
    × ((read_string hwmon_curr (pos 6) ≡ err einval) ↔ OutOfRange (pos 6))
range_example = OutOfRange-iff ttl_250hz garbage cached seventh late_moment (λ e. cc)

kept_client :
    attach_result true true (refresh_locked ttl_250hz garbage zeroed good_moment).ret true 0
    ≡ settling (some 0)
unfolding attach_result refresh_locked cache_hit commit read_frame frame_plausible decode_frame
    u16_be
kept_client = refl

answer_example :
    (true ≡ true) × (true ≡ true) × (true ≡ true) × IsAnswer garbage (block healthy_block)
answer_example = attach_result-IsAnswer ttl_250hz garbage good_moment true true true 0 kept_client
