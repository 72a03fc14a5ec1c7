-- ===== src/Driver/Cache.antt =====
-- driver/astral_hwmon.c, the hwmon surface: the cached frame, `astral_refresh_locked`,
-- `astral_read`, `astral_read_string`, `astral_is_visible` and the table of channels. Every
-- operation holds `data->lock` from start to end, so it is one step; `jiffies` is read twice, and
-- both values are arguments, as is the outcome of the block read that the bus would give.
pub mod Clock
pub mod Sound
pub mod Traffic
pub mod Burst
use astral_hwmon.Base.{
  ℕ, ◌+◌, ◌-◌, ◌%◌, ◌^◌, Bool, true, false, ◌&&◌, Option, none, some, leb, ◌==◌, if◌then◌else◌, Pin,
  pin_at,
}
use astral_hwmon.Base.Int.{ℤ, pos, negsuc}
use astral_hwmon.Driver.Regs.{Frame, frame_plausible, read_frame, Transfer, Result, ok, err, eio}

abbrev pub einval : ℕ
einval = 22

abbrev pub eopnotsupp : ℕ
eopnotsupp = 95

abbrev pub eproto : ℕ
eproto = 71

abbrev pub astral_cache_ttl_ms : ℕ
astral_cache_ttl_ms = 200

-- `unsigned long` has 64 bits.
abbrev pub ulong : ℕ
ulong = 2 ^ 64

-- `time_before(a, b)`: (long)(a - b) < 0
unfoldable pub time_before : ℕ → ℕ → Bool
time_before a b = leb (2 ^ 63) ((a + ulong - b) % ulong)

-- `struct astral_data`, without the client and the lock.
pub record Data : Type 0 where
  pub frame : Frame
  pub last_updated : ℕ
  pub valid : Bool

-- What `devm_kzalloc` gives.
abbrev pub zeroed : Data
zeroed = record {
  frame = record { millivolts = λ _. 0; milliamps = λ _. 0 };
  last_updated = 0;
  valid = false;
}

-- What the world gives an operation: `jiffies` at the test of the cache and at its update, and the
-- outcome of a block read, if one is made.
pub record Moment : Type 0 where
  pub now : ℕ
  pub later : ℕ
  pub transfer : Transfer

-- The new state, the `int` returned (0, or the errno of a negative one), and whether the bus was
-- touched.
pub record Refresh : Type 0 where
  pub cache : Data
  pub ret : ℕ
  pub traffic : Bool

-- `fresh` is a local: it is committed only once it is plausible.
unfoldable pub commit : Data → Moment → Result Frame → Refresh
commit d m (err errno) = record { cache = record d { valid = false }; ret = errno; traffic = true }
commit d m (ok fresh) =
    if frame_plausible fresh
    then record {
      cache = record { frame = fresh; last_updated = m.later; valid = true };
      ret = 0;
      traffic = true;
    }
    else record { cache = record d { valid = false }; ret = eproto; traffic = true }

-- `enum hwmon_sensor_types` and the chip attributes, as far as the driver tells them apart.
pub data SensorType : Type 0 where
  hwmon_chip hwmon_in hwmon_curr hwmon_other : SensorType

pub data Attr : Type 0 where
  hwmon_chip_update_interval attr_other : Attr

pub record Request : Type 0 where
  pub type : SensorType
  pub attr : Attr
  pub channel : ℤ

-- The range test on `int channel`, with the array index that it leaves.
abbrev pub channel_pin : ℤ → Option Pin
channel_pin (negsuc n) = none
channel_pin (pos n) = pin_at n

pub record Reading : Type 0 where
  pub cache : Data
  pub result : Result ℕ
  pub traffic : Bool

-- The `switch` on the type, after a refresh that went well.
unfoldable pub select : SensorType → Frame → Pin → Result ℕ
select hwmon_in frame channel = ok (frame.millivolts channel)
select hwmon_curr frame channel = ok (frame.milliamps channel)
select _ frame channel = err eopnotsupp

unfoldable pub answer : SensorType → Pin → Refresh → Reading
unfolding select
answer type channel r = record {
  cache = r.cache;
  result =
      if r.ret == 0
      then select type r.cache.frame channel
      else if r.ret == eproto
      then err eio
      else err r.ret;
  traffic = r.traffic;
}

-- ASTRAL_CACHE_TTL, which is `msecs_to_jiffies(200)`, is `ttl`.
unfoldable pub cache_hit : ℕ → Data → ℕ → Bool
unfolding time_before
cache_hit ttl d now = d.valid && time_before now ((d.last_updated + ttl) % ulong)

-- `fresh` starts uninitialised; what it holds never shows, since it is decoded in whole.
module _ (ttl : ℕ) (uninitialised : Frame) where
  unfoldable pub refresh_locked : Data → Moment → Refresh
  unfolding cache_hit commit
  refresh_locked d m =
      if cache_hit ttl d m.now
      then record { cache = d; ret = 0; traffic = false }
      else commit d m (read_frame m.transfer uninitialised)

  unfoldable pub read_channel : Data → SensorType → Option Pin → Moment → Reading
  unfolding refresh_locked answer
  read_channel d type none m = record { cache = d; result = err einval; traffic = false }
  read_channel d type (some channel) m = answer type channel (refresh_locked d m)

  unfoldable pub read_as : Data → SensorType → Attr → ℤ → Moment → Reading
  unfolding read_channel
  read_as d hwmon_chip hwmon_chip_update_interval channel m = record {
    cache = d;
    result = ok astral_cache_ttl_ms;
    traffic = false;
  }
  read_as d hwmon_chip attr_other channel m = record {
    cache = d;
    result = err eopnotsupp;
    traffic = false;
  }
  read_as d type attr channel m = read_channel d type (channel_pin channel) m

  -- `astral_read`
  unfoldable pub read : Data → Request → Moment → Reading
  unfolding read_as
  read d q m = read_as d q.type q.attr q.channel m
