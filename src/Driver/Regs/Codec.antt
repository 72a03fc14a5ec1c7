-- ===== src/Driver/Regs/Codec.antt =====
-- The layout of the pin block, and the decoder as its inverse.
use astral_hwmon.Base.{
  ℕ, ◌+◌, ◌-◌, ◌*◌, ◌/◌, ◌%◌, ◌^◌, ◌<◌, ◌≡◌, refl, ◌∙◌, fun_ext, List, [], ◌∷◌, ◌++◌, arith, get_or,
  Pin, pin1, pin2, pin3, pin4, pin5, pin6, index, bit_or-shift,
}
use astral_hwmon.Driver.Regs.{Frame, u16_be, decode_frame}

-- A 16-bit register, high byte first.
abbrev pub be_bytes : ℕ → List ℕ
be_bytes v = v / 256 ∷ v % 256 ∷ []

-- How the chip stores a pin: millivolts, then milliamps.
abbrev pub pin_bytes : Frame → Pin → List ℕ
pin_bytes f p = be_bytes (f.millivolts p) ++ be_bytes (f.milliamps p)

-- The whole block, pin 6 first.
abbrev pub encode_frame : Frame → List ℕ
encode_frame f =
    pin_bytes f pin6
    ++ pin_bytes f pin5
    ++ pin_bytes f pin4
    ++ pin_bytes f pin3
    ++ pin_bytes f pin2
    ++ pin_bytes f pin1

-- Every register of the frame is a u16.
pub record IsU16Frame (f : Frame) : Type 0 where
  pub millivolts_u16 : (p : Pin) → f.millivolts p < 2 ^ 16
  pub milliamps_u16 : (p : Pin) → f.milliamps p < 2 ^ 16

abbrev pub IsByte : ℕ → Type 0
IsByte b = b < 256

pub u16_be_lem :
    (buf : List ℕ) (offset : ℕ)
    → get_or buf offset 0 < 256
    → get_or buf (offset + 1) 0 < 256
    → u16_be buf offset ≡ get_or buf offset 0 * 256 + get_or buf (offset + 1) 0
unfolding u16_be
u16_be_lem buf offset hi lo =
    omega (arith, bit_or-shift (get_or buf offset 0) (get_or buf (offset + 1) 0) lo)

-- Two bytes that hold the halves of a u16 are read as that number.
u16_be_read :
    (buf : List ℕ) (offset v : ℕ)
    → v < 2 ^ 16
    → get_or buf offset 0 ≡ v / 256
    → get_or buf (offset + 1) 0 ≡ v % 256
    → u16_be buf offset ≡ v
u16_be_read buf offset v fits hi lo =
    omega (arith, u16_be_lem buf offset (omega arith) (omega arith))

decode_mv :
    (buf : List ℕ) (out : Frame) (p : Pin)
    → (decode_frame buf out).millivolts p ≡ u16_be buf ((5 - index p) * 4)
unfolding decode_frame
decode_mv buf out pin1 = refl
decode_mv buf out p = refl

decode_ma :
    (buf : List ℕ) (out : Frame) (p : Pin)
    → (decode_frame buf out).milliamps p ≡ u16_be buf ((5 - index p) * 4 + 2)
unfolding decode_frame
decode_ma buf out pin1 = refl
decode_ma buf out p = refl

-- The decoder reads back, pin by pin, the frame that the chip stores in reverse pin order,
-- whatever the output frame held before.
pub decode_frame-encode_frame :
    (f out : Frame) → IsU16Frame f → decode_frame (encode_frame f) out ≡ f
decode_frame-encode_frame f out v =
    λ i. record { millivolts = fun_ext mv i; milliamps = fun_ext ma i }
  where
    mv : (p : Pin) → (decode_frame (encode_frame f) out).millivolts p ≡ f.millivolts p
    mv pin1 =
        decode_mv _ out pin1 ∙ u16_be_read _ _ (f.millivolts pin1) (v.millivolts_u16 pin1) refl refl
    mv p = decode_mv _ out p ∙ u16_be_read _ _ (f.millivolts p) (v.millivolts_u16 p) refl refl

    ma : (p : Pin) → (decode_frame (encode_frame f) out).milliamps p ≡ f.milliamps p
    ma pin1 =
        decode_ma _ out pin1 ∙ u16_be_read _ _ (f.milliamps pin1) (v.milliamps_u16 pin1) refl refl
    ma p = decode_ma _ out p ∙ u16_be_read _ _ (f.milliamps p) (v.milliamps_u16 p) refl refl
