-- ===== src/Core/Frames/Codec.antt =====
-- Frames survive the way through their bytes, and the decoder takes nothing else.
use aether_stack.Base.{ℕ, ◌*◌, ◌/◌, ◌^◌, ◌<◌, ◌≡◌, refl, some, arith, bit_and, bit_or, u8, u16}
use aether_stack.Base.Bits.{bit_and_mask, word_of_bytes}
use aether_stack.Core.Frames.{
  AirFrameType, msg1_prach, msg2_rar, msg3_ccch, msg4_cr, data_frame, type_byte, AirFrame,
  encode_frame, type_of, decode_frame,
}

rnti_bytes :
    (r : ℕ)
    → r < 65536
    → u16 (bit_or (u8 (bit_and r 0xff)) (u8 (bit_and (r / 2 ^ 8) 0xff) * 2 ^ 8)) ≡ r
rnti_bytes r h =
    rw (word_of_bytes (u8 (bit_and r 0xff)) (u8 (bit_and (r / 2 ^ 8) 0xff)) (omega arith))
      (omega (arith, bit_and_mask 8 r, bit_and_mask 8 (r / 2 ^ 8)))

type_of-type_byte : (t : AirFrameType) → type_of (type_byte t) ≡ some t
unfolding type_of
type_of-type_byte msg1_prach = refl
type_of-type_byte msg2_rar = refl
type_of-type_byte msg3_ccch = refl
type_of-type_byte msg4_cr = refl
type_of-type_byte data_frame = refl

-- Every frame of a 16-bit identity is read back from its bytes.
pub decode_frame-encode_frame :
    (f : AirFrame) → f.rnti < 65536 → decode_frame (encode_frame f) ≡ some f
unfolding decode_frame encode_frame
decode_frame-encode_frame f h = rw (type_of-type_byte f.type, rnti_bytes f.rnti h) refl
