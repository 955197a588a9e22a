-- ===== src/Core/Frames.antt =====
-- stack/core/src/radio_frames.cpp: air frames and their framing among the bits of a burst. A
-- message is a list of bytes and a burst a list of bits; `none` is the result `false`.
pub mod Codec
pub mod Burst
use aether_stack.Base.{
  ℕ, zero, suc, ◌+◌, ◌*◌, ◌/◌, ◌%◌, ◌^◌, List, [], ◌∷◌, ◌++◌, Option, none, some, Bool, bit_and,
  bit_or, ltb, ◌==◌, if◌then◌else◌, length, get_or, drop, u8, u16,
}

pub data AirFrameType : Type 0 where
  msg1_prach msg2_rar msg3_ccch msg4_cr data_frame : AirFrameType

-- The enumerators' values.
abbrev pub type_byte : AirFrameType → ℕ
type_byte msg1_prach = 0xa1
type_byte msg2_rar = 0xa2
type_byte msg3_ccch = 0xa3
type_byte msg4_cr = 0xa4
type_byte data_frame = 0xa5

pub record AirFrame : Type 0 where
  pub type : AirFrameType
  pub rnti : ℕ
  pub payload : List ℕ

unfoldable pub encode_frame : AirFrame → List ℕ
encode_frame frame =
    type_byte frame.type
    ∷ u8 (bit_and frame.rnti 0xff)
    ∷ u8 (bit_and (frame.rnti / 2 ^ 8) 0xff)
    ∷ frame.payload

-- The `switch` on the first byte.
unfoldable pub type_of : ℕ → Option AirFrameType
type_of b =
    if b == 0xa1
    then some msg1_prach
    else if b == 0xa2
    then some msg2_rar
    else if b == 0xa3
    then some msg3_ccch
    else if b == 0xa4
    then some msg4_cr
    else if b == 0xa5
    then some data_frame
    else none

unfoldable pub decode_frame : List ℕ → Option AirFrame
decode_frame (b ∷ lo ∷ hi ∷ payload) = framed (type_of b)
  where
    framed : Option AirFrameType → Option AirFrame
    framed none = none
    framed (some t) =
        some (record { type = t; rnti = u16 (bit_or lo (hi * 2 ^ 8)); payload = payload })
decode_frame [] = none
decode_frame (b ∷ []) = none
decode_frame (b ∷ lo ∷ []) = none

unfoldable pub pad_bits_to_even : List ℕ → List ℕ
pad_bits_to_even bits = if length bits % 2 == 0 then bits else bits ++ 0 ∷ []

-- `for i in [i, i + n)`: push bit `i` of the value.
unfoldable pub value_bits : ℕ → ℕ → ℕ → List ℕ
value_bits zero i value = []
value_bits (suc n) i value = bit_and (value / 2 ^ i) 1 ∷ value_bits n (i + 1) value

unfoldable pub append_byte_bits : List ℕ → ℕ → List ℕ
append_byte_bits bits value = bits ++ value_bits 8 0 value

unfoldable pub append_payload : List ℕ → List ℕ → List ℕ
unfolding append_byte_bits
append_payload bits [] = bits
append_payload bits (b ∷ payload) = append_payload (append_byte_bits bits b) payload

unfoldable pub pack_air_bits : List ℕ → List ℕ
pack_air_bits payload =
    let len = u16 (length payload) in
    let bits = append_byte_bits [] (u8 (bit_and len 0xff)) in
    let bits = append_byte_bits bits (u8 (bit_and (len / 2 ^ 8) 0xff)) in
    pad_bits_to_even (append_payload bits payload)

-- `value |= (bits[offset + i] & 1) << i` for i in [i, i + n).
unfoldable pub or_bits : ℕ → ℕ → ℕ → List ℕ → ℕ → ℕ
or_bits zero i offset bits value = value
or_bits (suc n) i offset bits value =
    or_bits n (i + 1) offset bits
      (bit_or value (u8 (bit_and (get_or bits (offset + i) 0) 1 * 2 ^ i)))

unfoldable pub read_byte : List ℕ → ℕ → ℕ
read_byte bits offset = or_bits 8 0 offset bits 0

-- `for i in [i, i + n)`: read byte `i` after the length.
unfoldable pub read_bytes : ℕ → ℕ → List ℕ → List ℕ
read_bytes zero i bits = []
read_bytes (suc n) i bits = read_byte bits (16 + i * 8) ∷ read_bytes n (i + 1) bits

unfoldable pub unpack_air_bits : List ℕ → Option (List ℕ)
unpack_air_bits bits =
    let len = bit_or (read_byte bits 0) (read_byte bits 8 * 2 ^ 8) in
    if ltb (length bits) 16
    then none
    else if ltb (length bits) (16 + len * 8)
    then none
    else some (read_bytes len 0 bits)
