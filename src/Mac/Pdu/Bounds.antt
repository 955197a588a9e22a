-- ===== src/Mac/Pdu/Bounds.antt =====
-- What the parser does with an arbitrary PDU, which a faulty or hostile peer may have sent.
use aether_stack.Base.{
  ℕ, zero, suc, ◌+◌, ◌*◌, ◌^◌, ◌≤◌, ◌<◌, ◌≡◌, refl, List, [], ◌∷◌, bit_and, bit_or, arith, false,
  ◌==◌, length, drop, length-take, length-drop, u16,
}
use aether_stack.Base.Bits.{bit_and_mask}
use aether_stack.Mac.Pdu.{Sdu, take_sdu, long_length, after_header, parse_loop, parse_pdu}

-- The bytes that SDUs take up in a PDU, each with a subheader of two bytes at least.
abbrev pub footprint : List Sdu → ℕ
footprint [] = 0
footprint (s ∷ ss) = 2 + length s.bytes + footprint ss

abbrev pub AllData : List Sdu → Type 0
AllData [] = Unit {0}
AllData (s ∷ ss) = (s.lcid < 63) × AllData ss

-- What a loop is to give on every suffix of at most `n` bytes.
abbrev GoodLoop : ℕ → (List ℕ → List Sdu) → Type 0
GoodLoop n loop =
    (rest : List ℕ) → length rest ≤ n → (footprint (loop rest) ≤ length rest) × AllData (loop rest)

module _ (n : ℕ) (loop : List ℕ → List Sdu) (good : GoodLoop n loop) where
  take_sdu_good :
      (lcid len : ℕ) (rest : List ℕ)
      → lcid < 63
      → length rest ≤ n
      → (footprint (take_sdu loop lcid len rest) ≤ length rest + 2)
        × AllData (take_sdu loop lcid len rest)
  unfolding take_sdu
  take_sdu_good lcid len rest h le = ground (
    arith,
    good (drop len rest) (omega (arith, length-drop len rest)),
    length-take len rest,
    length-drop len rest,
  )

  data_lcid : (header : ℕ) → (bit_and header 0x3f == 63) ≡ false → bit_and header 0x3f < 63
  data_lcid header h = ground (arith, bit_and_mask 6 header)

  long_length_good :
      (lcid high : ℕ) (rest : List ℕ)
      → lcid < 63
      → length rest ≤ n
      → (footprint (long_length loop lcid high rest) ≤ length rest + 2)
        × AllData (long_length loop lcid high rest)
  unfolding long_length
  long_length_good lcid high [] h le = (omega arith, tt)
  long_length_good lcid high (low ∷ rest) h le =
      ground (arith, take_sdu_good lcid (bit_or (u16 (high * 2 ^ 8)) low) rest h)

  after_header_good :
      (header byte : ℕ) (rest : List ℕ)
      → length rest ≤ n
      → (footprint (after_header loop header byte rest) ≤ length rest + 2)
        × AllData (after_header loop header byte rest)
  unfolding after_header
  after_header_good header byte rest le = ground (
    arith,
    data_lcid header,
    take_sdu_good (bit_and header 0x3f) byte rest,
    long_length_good (bit_and header 0x3f) byte rest,
  )

parse_loop_good : (fuel : ℕ) → GoodLoop fuel (parse_loop fuel)
unfolding parse_loop
parse_loop_good zero rest le = (omega arith, tt)
parse_loop_good (suc fuel) [] le = (omega arith, tt)
parse_loop_good (suc fuel) (header ∷ []) le = (omega arith, tt)
parse_loop_good (suc fuel) (header ∷ byte ∷ rest) le =
    let r =
      after_header_good fuel (parse_loop fuel) (parse_loop_good fuel) header byte rest
        (omega arith) in
    (omega (arith, r.0), r.1)

-- The loop gives the same for every fuel that covers the PDU.
abbrev SameLoop : ℕ → (List ℕ → List Sdu) → (List ℕ → List Sdu) → Type 0
SameLoop n f g = (rest : List ℕ) → length rest ≤ n → f rest ≡ g rest

module _ (n : ℕ) (f g : List ℕ → List Sdu) (same : SameLoop n f g) where
  take_sdu_same :
      (lcid len : ℕ) (rest : List ℕ)
      → length rest ≤ n
      → take_sdu f lcid len rest ≡ take_sdu g lcid len rest
  unfolding take_sdu
  take_sdu_same lcid len rest le =
      rw (same (drop len rest) (omega (arith, length-drop len rest))) refl

  long_length_same :
      (lcid high : ℕ) (rest : List ℕ)
      → length rest ≤ n
      → long_length f lcid high rest ≡ long_length g lcid high rest
  unfolding long_length
  long_length_same lcid high [] le = refl
  long_length_same lcid high (low ∷ rest) le = take_sdu_same lcid _ rest (omega arith)

  after_header_same :
      (header byte : ℕ) (rest : List ℕ)
      → length rest ≤ n
      → after_header f header byte rest ≡ after_header g header byte rest
  unfolding after_header
  after_header_same header byte rest le =
      rw
        (
          long_length_same (bit_and header 0x3f) byte rest le,
          take_sdu_same (bit_and header 0x3f) byte rest le,
        )
        refl

parse_loop_same :
    (f g : ℕ) (rest : List ℕ)
    → length rest ≤ f
    → length rest ≤ g
    → parse_loop f rest ≡ parse_loop g rest
unfolding parse_loop
parse_loop_same zero zero rest h k = refl
parse_loop_same zero (suc g) [] h k = refl
parse_loop_same zero (suc g) (x ∷ rest) h k = absurd (omega arith)
parse_loop_same (suc f) zero [] h k = refl
parse_loop_same (suc f) zero (x ∷ rest) h k = absurd (omega arith)
parse_loop_same (suc f) (suc g) [] h k = refl
parse_loop_same (suc f) (suc g) (x ∷ []) h k = refl
parse_loop_same (suc f) (suc g) (x ∷ y ∷ rest) h k =
    after_header_same (length rest) (parse_loop f) (parse_loop g)
      (λ r le. parse_loop_same f g r (omega arith) (omega arith)) x y rest (omega arith)

-- On any bytes at all: the SDUs that the parser returns fit, with their subheaders, into the PDU,
-- none is padding, and the loop ends by its tests: more rounds than the PDU has bytes change nothing.
pub parse_pdu_bounds :
    (pdu : List ℕ) (fuel : ℕ)
    → length pdu ≤ fuel
    → (footprint (parse_pdu pdu) ≤ length pdu)
      × AllData (parse_pdu pdu)
      × (parse_loop fuel pdu ≡ parse_pdu pdu)
unfolding parse_pdu
parse_pdu_bounds pdu fuel h =
    let r = parse_loop_good (length pdu) pdu (omega arith) in
    (r.0, r.1, parse_loop_same fuel (length pdu) pdu h (omega arith))
