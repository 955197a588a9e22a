-- ===== src/Core/Harq/Wire.antt =====
-- stack/core/src/harq.cpp, the wire format and the codec helpers, with `HarqHeader` of harq.h.
use aether_stack.Base.{
  ℕ, zero, suc, ◌+◌, ◌*◌, ◌/◌, ◌%◌, ◌^◌, List, [], ◌∷◌, ◌++◌, Option, none, some, Bool, false, not,
  ◌&&◌, ◌||◌, bit_and, bit_or, length, get_or, drop, u8, u16, ltb, leb, ◌==◌, if◌then◌else◌,
}
use aether_stack.Phy.Fec.BitOrder.{bytes_to_bits, bits_to_bytes}
use aether_stack.Phy.Fec.Crc.{crc_attach, crc_verify_strip}
use aether_stack.Phy.Fec.Trellis.{fec_encode}
use aether_stack.Phy.Fec.Viterbi.{Decoded, fec_decode}

pub record Header : Type 0 where
  pub proc : ℕ
  pub ndi : ℕ
  pub rv : ℕ
  pub len : ℕ
  pub info_len : ℕ

abbrev pub header_size : ℕ
header_size = 7

unfoldable pub pack : Header → List ℕ
pack h =
    u8 (bit_or (bit_and h.proc 0x7f) (if h.ndi == 0 then 0 else 0x80))
    ∷ h.rv
    ∷ u8 (bit_and h.len 0xff)
    ∷ u8 (bit_and (h.len / 2 ^ 8) 0xff)
    ∷ u8 (bit_and h.info_len 0xff)
    ∷ u8 (bit_and (h.info_len / 2 ^ 8) 0xff)
    ∷ 0xa9
    ∷ []

-- `none` is the result false.
unfoldable pub unpack : List ℕ → Option Header
unpack buf =
    if ltb (length buf) header_size || not (get_or buf 6 0 == 0xa9)
    then none
    else some (record {
      proc = bit_and (get_or buf 0 0) 0x7f;
      ndi = bit_and (get_or buf 0 0 / 2 ^ 7) 1;
      rv = get_or buf 1 0;
      len = u16 (bit_or (get_or buf 2 0) (get_or buf 3 0 * 2 ^ 8));
      info_len = u16 (bit_or (get_or buf 4 0) (get_or buf 5 0 * 2 ^ 8));
    })

unfoldable pub is_harq_framed : List ℕ → Bool
is_harq_framed buf = leb header_size (length buf) && (get_or buf 6 0 == 0xa9)

unfoldable pub valid_coded_bits : Header → ℕ
valid_coded_bits h = (h.info_len * 8 + 6) * 2

-- `while (size % 8 != 0) push_back(0)`; eight rounds are enough.
unfoldable pub pad_loop : ℕ → List ℕ → List ℕ
pad_loop zero bits = bits
pad_loop (suc fuel) bits =
    let padded = pad_loop fuel (bits ++ 0 ∷ []) in if length bits % 8 == 0 then bits else padded

abbrev pub frame : Header → List ℕ → List ℕ
frame h coded = pack h ++ coded

-- The header in front of the coded bytes; `none` is the exception of `bits_to_bytes_fec`.
with_header : List ℕ → ℕ → ℕ → Option (List ℕ) → Option (List ℕ)
with_header block proc ndi none = none
with_header block proc ndi (some coded) = some (
    frame
      (record {
        proc = proc;
        ndi = ndi;
        rv = 0;
        len = u16 (length coded);
        info_len = u16 (length block);
      })
      coded)

unfoldable pub link_encode : List ℕ → ℕ → ℕ → Option (List ℕ)
unfolding with_header
link_encode mac_pdu proc ndi =
    let block = crc_attach mac_pdu in
    with_header block proc ndi (bits_to_bytes (pad_loop 8 (fec_encode (bytes_to_bits block))))

unfoldable pub link_payload_bits : List ℕ → List ℕ
link_payload_bits payload = elim (unpack payload) [
  | none ↦ []
  | some h ↦ bytes_to_bits (drop header_size payload)
]

-- What a call returns with the out parameter `mac_pdu`, or that an exception leaves it which its
-- handler of invalid_argument does not catch.
pub data Verdict : Type 0 where
  verdict : Bool → List ℕ → Verdict
  escaped : Verdict

unfoldable pub verify_block : Option (List ℕ) → List ℕ → Verdict
verify_block none mac_pdu = verdict false mac_pdu
verify_block (some block) mac_pdu =
    verdict (crc_verify_strip block mac_pdu).0 (crc_verify_strip block mac_pdu).1

unfoldable pub decode_result : Decoded → ℕ → List ℕ → Verdict
unfolding verify_block
decode_result (Decoded.ok info) info_len mac_pdu =
    if length info == info_len * 8
    then verify_block (bits_to_bytes info) mac_pdu
    else verdict false mac_pdu
decode_result Decoded.invalid_argument info_len mac_pdu = verdict false mac_pdu
decode_result Decoded.length_error info_len mac_pdu = escaped

unfoldable pub link_decode_bits : List ℕ → ℕ → List ℕ → Verdict
unfolding decode_result
link_decode_bits coded info_len mac_pdu = decode_result (fec_decode coded none) info_len mac_pdu
