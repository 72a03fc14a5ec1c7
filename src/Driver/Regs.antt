-- ===== src/Driver/Regs.antt =====
-- driver/astral_regs.c and the frame of driver/astral.h: decoding and plausibility of a block.
-- A `u8` is a number below 256 and a `u16` a number below 65536. `buf` is the block that the
-- caller holds; a read past its end, which the code leaves to the caller, gives 0 here.
pub mod Codec
pub mod Plausible
use Prim.Native.Nat.{bit_or}
use astral_hwmon.Base.{
  ℕ, suc, ◌+◌, ◌-◌, ◌*◌, ◌%◌, ◌^◌, Bool, true, false, ◌||◌, List, [], ◌∷◌, ltb, ◌==◌, if◌then◌else◌,
  get_or, length, foldl, Pin, index, pins, update,
}

abbrev pub astral_pin_count : ℕ
astral_pin_count = 6

abbrev pub astral_block_len : ℕ
astral_block_len = 24

abbrev pub astral_mv_min : ℕ
astral_mv_min = 6000

abbrev pub astral_mv_max : ℕ
astral_mv_max = 13000

abbrev pub astral_ma_max : ℕ
astral_ma_max = 30000

pub record Frame : Type 0 where
  pub millivolts : Pin → ℕ
  pub milliamps : Pin → ℕ

-- `((u16)buf[offset] << 8) | buf[offset + 1]`, returned as a u16.
unfoldable pub u16_be : List ℕ → ℕ → ℕ
u16_be buf offset = bit_or (get_or buf offset 0 * 2 ^ 8) (get_or buf (offset + 1) 0) % 2 ^ 16

-- One round of the loop: the block of pin 1 stands last.
unfoldable pub decode_pin : List ℕ → Frame → Pin → Frame
decode_pin buf out pin =
    let base = (astral_pin_count - 1 - index pin) * 4 in
    record {
      millivolts = update out.millivolts pin (u16_be buf base);
      milliamps = update out.milliamps pin (u16_be buf (base + 2));
    }

unfoldable pub decode_frame : List ℕ → Frame → Frame
unfolding decode_pin
decode_frame buf out = foldl (decode_pin buf) out pins

-- The tests of one round; the loop returns false at the first pin that fails one.
unfoldable pub pin_plausible : Frame → Pin → Bool
pin_plausible frame pin =
    if ltb (frame.millivolts pin) astral_mv_min || ltb astral_mv_max (frame.millivolts pin)
    then false
    else if ltb astral_ma_max (frame.milliamps pin)
    then false
    else true

unfoldable pub frame_plausible_from : List Pin → Frame → Bool
unfolding pin_plausible
frame_plausible_from [] frame = true
frame_plausible_from (pin ∷ rest) frame =
    if pin_plausible frame pin then frame_plausible_from rest frame else false

unfoldable pub frame_plausible : Frame → Bool
unfolding frame_plausible_from
frame_plausible frame = frame_plausible_from pins frame

-- What `i2c_smbus_read_i2c_block_data` returns: `fault n` is the negative error -(n + 1), and
-- `block buf` the count of the bytes that it wrote to the buffer, `buf`.
pub data Transfer : Type 0 where
  fault : (n : ℕ) → Transfer
  block : (buf : List ℕ) → Transfer

-- `int` results of the driver: 0, or a negative errno.
pub data Result {ℓ} (A : Type ℓ) : Type ℓ where
  ok : A → Result A
  err : (errno : ℕ) → Result A

abbrev pub eio : ℕ
eio = 5

unfoldable pub read_frame : Transfer → Frame → Result Frame
read_frame (fault n) out = err (suc n)
read_frame (block buf) out =
    if length buf == astral_block_len then ok (decode_frame buf out) else err eio
