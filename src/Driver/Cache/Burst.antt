-- ===== src/Driver/Cache/Burst.antt =====
-- Sequences of channel reads: what one block read serves, and what bounds the use of the bus.
use astral_hwmon.Base.{
  ℕ, suc, ◌^◌, ◌≤◌, ◌<◌, ◌≡◌, refl, ap, ◌≢◌, inl, true, false, List, [], ◌∷◌, map, arith,
  if◌then◌else◌, length, All, pin_at-index, Pin, index,
}
use native.Mathlib.Decide.{dec_lt}
use astral_hwmon.Base.Int.{pos}
use astral_hwmon.Driver.Regs.{
  Frame, frame_plausible, decode_frame, block, Result, ok, astral_block_len,
}
use astral_hwmon.Driver.Cache.{
  ulong, Data, Moment, hwmon_in, hwmon_curr, attr_other, Request, select, cache_hit, refresh_locked,
  read,
}
use astral_hwmon.Driver.Cache.Clock.{age, cache_hit_iff}
use astral_hwmon.Driver.Cache.Traffic.{
  cache_hit-invalid, IsChannel, voltage, current, read-hit, read-miss, read-good, failed_read,
}

-- The twelve channels that userspace reads.
pub data Channel : Type 0 where
  voltage_of current_of : Pin → Channel

abbrev pub channel_pin_of : Channel → Pin
channel_pin_of (voltage_of p) = p
channel_pin_of (current_of p) = p

-- The call that the hwmon core makes for a channel.
abbrev pub request_of : Channel → Request
request_of (voltage_of p) = record { type = hwmon_in; attr = attr_other; channel = pos (index p) }
request_of (current_of p) = record { type = hwmon_curr; attr = attr_other; channel = pos (index p) }

abbrev pub value_of : Frame → Channel → ℕ
value_of f (voltage_of p) = f.millivolts p
value_of f (current_of p) = f.milliamps p

pub request_of-IsChannel : (c : Channel) → IsChannel (request_of c) (channel_pin_of c)
request_of-IsChannel (voltage_of p) = voltage refl (pin_at-index p)
request_of-IsChannel (current_of p) = current refl (pin_at-index p)

pub select-value_of :
    (f : Frame) (c : Channel) → select (request_of c).type f (channel_pin_of c) ≡ ok (value_of f c)
unfolding select
select-value_of f (voltage_of p) = refl
select-value_of f (current_of p) = refl

-- A frame that was committed at `time` is still fresh at each of these moments.
abbrev pub Within : ℕ → ℕ → List (Channel × Moment) → Type 0
Within ttl time = All (λ (c : Channel × Moment). (c.1.now < ulong) × (age time c.1.now < ttl))

module _ (ttl : ℕ) (u : Frame) where
  -- The results of a sequence of channel reads, and how many of them touched the bus.
  abbrev pub serve : Data → List (Channel × Moment) → List (Result ℕ)
  serve d [] = []
  serve d ((c, m) ∷ cs) = let r = read ttl u d (request_of c) m in r.result ∷ serve r.cache cs

  abbrev pub transactions : Data → List (Channel × Moment) → ℕ
  transactions d [] = 0
  transactions d ((c, m) ∷ cs) =
      let r = read ttl u d (request_of c) m in
      if r.traffic then suc (transactions r.cache cs) else transactions r.cache cs

  fresh_reads :
      (d : Data) (cs : List (Channel × Moment))
      → ttl ≤ 2 ^ 63
      → d.valid ≡ true
      → d.last_updated < ulong
      → Within ttl d.last_updated cs
      → (serve d cs ≡ map (λ c. ok (value_of d.frame c.0)) cs) × (transactions d cs ≡ 0)
  fresh_reads d [] small valid fits h = (refl, refl)
  fresh_reads d ((c, m) ∷ cs) small valid fits h =
      let hit = (cache_hit_iff ttl d m.now small fits h.0.0).1 (valid, inl h.0.1) in
      let rest = fresh_reads d cs small valid fits h.1 in
      rw (read-hit ttl u d (request_of c) (channel_pin_of c) m (request_of-IsChannel c) hit)
        (rw (select-value_of d.frame c) (ap (◌∷◌ (ok (value_of d.frame c))) rest.0), rest.1)

  -- A run of channel reads after a stale cache: the first makes one block read, and if the block is
  -- good, every read within the time to live from its commit, the first included, is answered from
  -- that one block with no further use of the bus.
  pub one_transaction :
      (d : Data) (c : Channel) (m : Moment) (cs : List (Channel × Moment)) (buf : List ℕ)
      → ttl ≤ 2 ^ 63
      → cache_hit ttl d m.now ≡ false
      → m.transfer ≡ block buf
      → length buf ≡ astral_block_len
      → frame_plausible (decode_frame buf u) ≡ true
      → m.later < ulong
      → Within ttl m.later cs
      → (serve d ((c, m) ∷ cs) ≡ map (λ c. ok (value_of (decode_frame buf u) c.0)) ((c, m) ∷ cs))
        × (transactions d ((c, m) ∷ cs) ≡ 1)
  one_transaction d c m cs buf small missed e full good fits within =
      let rest =
        fresh_reads (record { frame = decode_frame buf u; last_updated = m.later; valid = true }) cs
          small refl fits within in
      rw
        (read-good ttl u d (request_of c) (channel_pin_of c) m buf (request_of-IsChannel c) missed e
          full good)
        (
          rw (select-value_of (decode_frame buf u) c)
              (ap (◌∷◌ (ok (value_of (decode_frame buf u) c))) rest.0),
          ap suc rest.1,
        )

  -- After a block read that left a valid cache, the bus is not used again before the time to live
  -- has passed, whatever the channel.
  pub traffic_spacing :
      (d : Data) (c : Channel) (m : Moment)
      → ttl ≤ 2 ^ 63
      → d.valid ≡ true
      → d.last_updated < ulong
      → m.now < ulong
      → (read ttl u d (request_of c) m).traffic ≡ true
      → ttl ≤ age d.last_updated m.now
  traffic_spacing d c m small valid fits now_fits busy =
      elim (dec_lt (age d.last_updated m.now) ttl) [
        | no far ↦ omega arith
        | yes near ↦
            let hit = (cache_hit_iff ttl d m.now small fits now_fits).1 (valid, inl near) in
            cc (
              busy,
              read-hit ttl u d (request_of c) (channel_pin_of c) m (request_of-IsChannel c) hit,
            )
      ]

  -- When the bus or the chip fails, nothing spaces the reads: on an invalid cache every channel
  -- read makes a block read, at any time, so the time to live is no ceiling on the use of the bus.
  pub failing_traffic :
      (d : Data) (c next : Channel) (m m' : Moment)
      → cache_hit ttl d m.now ≡ false
      → (refresh_locked ttl u d m).ret ≢ 0
      → (read ttl u (read ttl u d (request_of c) m).cache (request_of next) m').traffic ≡ true
  failing_traffic d c next m m' missed bad =
      let d' = (read ttl u d (request_of c) m).cache in
      let invalid =
        failed_read ttl u d (request_of c) (channel_pin_of c) m (request_of-IsChannel c) missed
          bad in
      (read-miss ttl u d' (request_of next) (channel_pin_of next) m' (request_of-IsChannel next)
        (cache_hit-invalid ttl d' m'.now invalid)).1
