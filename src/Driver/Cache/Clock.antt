-- ===== src/Driver/Cache/Clock.antt =====
-- When a cached frame is served: the comparison of two wrapping counters.
use astral_hwmon.Base.{ℕ, ◌+◌, ◌-◌, ◌%◌, ◌^◌, ◌≤◌, ◌<◌, ◌≡◌, ◌↔◌, ◌⊎◌, true, ◌&&◌, arith, leb}
use astral_hwmon.Driver.Cache.{ulong, Data, cache_hit}

-- The jiffies that have passed from `last` to `now`, with the wrap-around of the counter.
abbrev pub age : ℕ → ℕ → ℕ
age last now = (now + ulong - last) % ulong

-- Shifting both counters by the age of the frame.
shifted :
    (last now ttl : ℕ)
    → ttl ≤ 2 ^ 63
    → last < ulong
    → now < ulong
    → (now + ulong - (last + ttl) % ulong) % ulong ≡ (age last now + ulong - ttl) % ulong
shifted last now ttl small l n = omega arith

age_fits : (last now : ℕ) → age last now < ulong
age_fits last now = omega arith

signed_far :
    (a ttl : ℕ)
    → ttl ≤ 2 ^ 63
    → a < ulong
    → 2 ^ 63 ≤ (a + ulong - ttl) % ulong
    → (a < ttl) ⊎ (ttl + 2 ^ 63 ≤ a)
signed_far a ttl small fits h = omega arith

signed_near :
    (a ttl : ℕ)
    → ttl ≤ 2 ^ 63
    → a < ulong
    → (a < ttl) ⊎ (ttl + 2 ^ 63 ≤ a)
    → 2 ^ 63 ≤ (a + ulong - ttl) % ulong
signed_near a ttl small fits h = omega arith

-- A valid frame is served exactly while it is younger than the time to live, or once it is so old
-- that half the range of the counter lies between: the comparison is signed.
pub cache_hit_iff :
    (ttl : ℕ) (d : Data) (now : ℕ)
    → ttl ≤ 2 ^ 63
    → d.last_updated < ulong
    → now < ulong
    → (cache_hit ttl d now ≡ true) ↔ (
        (d.valid ≡ true)
        × ((age d.last_updated now < ttl) ⊎ (ttl + 2 ^ 63 ≤ age d.last_updated now)))
unfolding cache_hit
cache_hit_iff ttl d now small last_fits now_fits =
    rw (shifted d.last_updated now ttl small last_fits now_fits) (served, shown)
  where
    served :
        (d.valid && leb (2 ^ 63) ((age d.last_updated now + ulong - ttl) % ulong)) ≡ true
        → (d.valid ≡ true)
          × ((age d.last_updated now < ttl) ⊎ (ttl + 2 ^ 63 ≤ age d.last_updated now))
    served h = (
      ground arith,
      signed_far (age d.last_updated now) ttl small (age_fits d.last_updated now) (ground arith),
    )

    shown :
        (d.valid ≡ true)
          × ((age d.last_updated now < ttl) ⊎ (ttl + 2 ^ 63 ≤ age d.last_updated now))
        → (d.valid && leb (2 ^ 63) ((age d.last_updated now + ulong - ttl) % ulong)) ≡ true
    shown h =
        ground
          (arith, signed_near (age d.last_updated now) ttl small (age_fits d.last_updated now) h.1)
