-- ===== src/Mac/Pdu.antt =====
-- stack/mac/src/mac_pdu.cpp: the codec that multiplexes SDUs of several logical channels into one
-- transport block. A PDU is a list of bytes. `build_pdu` is recursion over the SDUs. The parser's
-- position `pos` is the suffix of the PDU that starts there, and its `while` loop runs on fuel.
pub mod RoundTrip
pub mod Bounds
use aether_stack.Base.{
  ℕ, zero, suc, ◌+◌, ◌*◌, ◌/◌, ◌^◌, List, [], ◌∷◌, ◌++◌, Bool, not, bit_and, bit_or, ltb, leb, ◌==◌,
  if◌then◌else◌, length, take, drop, u8, u16,
}

abbrev pub lcid_padding : ℕ
lcid_padding = 63

pub record Sdu : Type 0 where
  pub lcid : ℕ
  pub bytes : List ℕ

-- The subheader: [R F LCID] and a length of one byte, or of two when F is set.
subheader : ℕ → ℕ → List ℕ
subheader lcid len =
    if leb len 255
    then bit_and lcid 0x3f ∷ u8 len ∷ []
    else bit_or 0x40 (bit_and lcid 0x3f) ∷ u8 (len / 2 ^ 8) ∷ u8 (bit_and len 0xff) ∷ []

pub build_pdu : List Sdu → List ℕ
unfolding subheader
build_pdu [] = []
build_pdu (s ∷ rest) = subheader s.lcid (u16 (length s.bytes)) ++ (s.bytes ++ build_pdu rest)

-- The payload of `len` bytes, and then the rest of the loop; nothing when it is cut short.
take_sdu : (List ℕ → List Sdu) → ℕ → ℕ → List ℕ → List Sdu
take_sdu loop lcid len rest =
    if ltb (length rest) len
    then []
    else record { lcid = lcid; bytes = take len rest } ∷ loop (drop len rest)

-- A length field of two bytes, of which the first is at hand.
long_length : (List ℕ → List Sdu) → ℕ → ℕ → List ℕ → List Sdu
long_length loop lcid high [] = []
long_length loop lcid high (low ∷ rest) = take_sdu loop lcid (bit_or (u16 (high * 2 ^ 8)) low) rest

after_header : (List ℕ → List Sdu) → ℕ → ℕ → List ℕ → List Sdu
after_header loop header byte rest =
    if bit_and header 0x3f == lcid_padding
    then []
    else if not (bit_and header 0x40 == 0)
    then long_length loop (bit_and header 0x3f) byte rest
    else take_sdu loop (bit_and header 0x3f) byte rest

-- One more round of the loop for each unit of fuel.
pub parse_loop : ℕ → List ℕ → List Sdu
parse_loop zero pdu = []
parse_loop (suc fuel) [] = []
parse_loop (suc fuel) (header ∷ []) = []
parse_loop (suc fuel) (header ∷ byte ∷ rest) = after_header (parse_loop fuel) header byte rest

pub parse_pdu : List ℕ → List Sdu
parse_pdu pdu = parse_loop (length pdu) pdu
