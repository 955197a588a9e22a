-- ===== src/Phy/Fec/Crc.antt =====
-- stack/phy/src/fec.cpp, `crc16`, `crc_attach` and `crc_verify_strip`: CRC16-CCITT with the frame
-- check sequence behind the payload, low byte first.
pub mod Attach
pub mod Detect
use aether_stack.Base.{
  ℕ, zero, suc, ◌+◌, ◌-◌, ◌*◌, ◌/◌, ◌^◌, List, [], ◌∷◌, ◌++◌, Bool, false, bit_and, bit_or, bit_xor,
  ltb, ◌==◌, if◌then◌else◌, length, get_or, take, u8, u16,
}

-- One turn of the inner loop.
pub crc_shift : ℕ → ℕ
crc_shift crc = if bit_and crc 0x8000 == 0 then u16 (crc * 2) else u16 (bit_xor (crc * 2) 0x1021)

pub crc_shifts : ℕ → ℕ → ℕ
crc_shifts zero crc = crc
crc_shifts (suc n) crc = crc_shifts n (crc_shift crc)

pub crc_byte : ℕ → ℕ → ℕ
crc_byte crc byte = crc_shifts 8 (u16 (bit_xor crc (u16 (byte * 2 ^ 8))))

pub crc_from : ℕ → List ℕ → ℕ
crc_from crc [] = crc
crc_from crc (byte ∷ rest) = crc_from (crc_byte crc byte) rest

unfoldable pub crc16 : List ℕ → ℕ
unfolding crc_from crc_byte crc_shifts crc_shift
crc16 bytes = crc_from 0xffff bytes

unfoldable pub crc_attach : List ℕ → List ℕ
crc_attach payload =
    let fcs = crc16 payload in
    payload ++ u8 (bit_and fcs 0xff) ∷ u8 (bit_and (fcs / 2 ^ 8) 0xff) ∷ []

-- The verdict, and the out parameter `payload`, which is written on a mismatch too.
unfoldable pub crc_verify_strip : List ℕ → List ℕ → Bool × List ℕ
crc_verify_strip block payload =
    if ltb (length block) 2
    then (false, payload)
    else (let stripped = take (length block - 2) block in
        (
          crc16 stripped
              == u16 (
                  bit_or (get_or block (length block - 2) 0)
                    (get_or block (length block - 1) 0 * 2 ^ 8)),
          stripped,
        ))
