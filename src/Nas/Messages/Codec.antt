-- ===== src/Nas/Messages/Codec.antt =====
-- Messages are read back.
use aether_stack.Base.{
  ◌+◌, ◌*◌, ◌/◌, ◌^◌, ◌<◌, ◌≡◌, refl, ap, ◌∙◌, true, arith, bit_and, bit_or, length, take_all, leb,
  u8, u16,
}
use aether_stack.Base.Bits.{bit_and_mask, word_of_bytes}
use aether_stack.Nas.Messages.{NasMessage, encode, decode}

-- A message is decoded to itself. (Its value has less than 2^16 bytes.)
pub decode-encode : (msg : NasMessage) → length msg.value < 2 ^ 16 → decode (encode msg) ≡ msg
unfolding decode encode
decode-encode msg h =
    let n = length msg.value in
    let lo = bit_and_mask 8 (u16 n) in
    let hi = bit_and_mask 8 (u16 n / 2 ^ 8) in
    let word : u16 (bit_or (u8 (bit_and (u16 n) 0xff)) (u8 (bit_and (u16 n / 2 ^ 8) 0xff) * 2 ^ 8))
        ≡ n =
      ap u16 (
        word_of_bytes (u8 (bit_and (u16 n) 0xff)) (u8 (bit_and (u16 n / 2 ^ 8) 0xff)) (omega arith))
      ∙ omega (arith, lo, hi, h) in
    let full : leb (3 + n) (3 + n) ≡ true = ground arith in
    rw word (rw (full, take_all msg.value) refl)
