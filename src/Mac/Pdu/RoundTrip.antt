-- ===== src/Mac/Pdu/RoundTrip.antt =====
-- What `build_pdu` writes, `parse_pdu` reads back, with any padding behind it.
use aether_stack.Base.{
  tests, ◌∙◌, ℕ, zero, suc, ◌+◌, ◌*◌, ◌/◌, ◌^◌, ◌≤◌, ◌<◌, ◌≡◌, refl, inl, inr, ap, List, [], ◌∷◌,
  ◌++◌, bit_and, bit_or, true, arith, leb, length, u8, u16, length-append, Bool-cases, append_assoc,
  take-length-append, drop-length-append,
}
use aether_stack.Base.Bits.{bit_and_mask, bit_or_low, eq_below, checks}
use aether_stack.Mac.Pdu.{
  Sdu, subheader, build_pdu, take_sdu, long_length, after_header, parse_loop, parse_pdu,
}

-- An SDU of a channel other than padding whose length fits the 16-bit field.
abbrev pub IsSendable : Sdu → Type 0
IsSendable s = (s.lcid < 63) × (length s.bytes < 2 ^ 16)

abbrev pub AllSendable : List Sdu → Type 0
AllSendable [] = Unit {0}
AllSendable (s ∷ ss) = IsSendable s × AllSendable ss

-- What may follow the last SDU: too little for a subheader, or a padding subheader.
abbrev pub IsPadding : List ℕ → Type 0
IsPadding [] = Unit {0}
IsPadding (x ∷ []) = Unit {0}
IsPadding (x ∷ y ∷ rest) = bit_and x 0x3f ≡ 63

long_flag : (x : ℕ) → x < 64 → bit_and (bit_or 0x40 x) 0x40 ≡ 0x40
long_flag = eq_below 64 _ _ (unfold checks in refl)

long_lcid : (x : ℕ) → x < 64 → bit_and (bit_or 0x40 x) 0x3f ≡ x
long_lcid = eq_below 64 _ _ (unfold checks in refl)

short_flag : (x : ℕ) → x < 64 → bit_and x 0x40 ≡ 0
short_flag = eq_below 64 _ _ (unfold checks in refl)

mask6 : (x : ℕ) → x < 64 → bit_and x 0x3f ≡ x
mask6 = eq_below 64 _ _ (unfold checks in refl)

module _ (k : List ℕ → List Sdu) (s : Sdu) (tail : List ℕ) where
  take_sdu-append : take_sdu k s.lcid (length s.bytes) (s.bytes ++ tail) ≡ s ∷ k tail
  unfolding take_sdu
  take_sdu-append =
      rw (take-length-append s.bytes tail, drop-length-append s.bytes tail)
        (ground (arith, length-append s.bytes tail))

shifted : (high : ℕ) → high < 256 → u16 (high * 2 ^ 8) ≡ high * 2 ^ 8
shifted high h = omega arith

small_length : (s : Sdu) → length s.bytes < 2 ^ 16 → u16 (length s.bytes) ≡ length s.bytes
small_length s h = omega arith

u8-length : (s : Sdu) → leb (length s.bytes) 255 ≡ true → u8 (length s.bytes) ≡ length s.bytes
u8-length s h = omega tests

two_bytes : (len : ℕ) → len < 2 ^ 16 → u8 (len / 2 ^ 8) * 256 + u8 (bit_and len 0xff) ≡ len
two_bytes len h = omega (arith, bit_and_mask 8 len)

module _ (loop : List ℕ → List Sdu) (lcid : ℕ) (data_channel : lcid < 63) where
  after_header_short :
      (byte : ℕ) (rest : List ℕ) → after_header loop lcid byte rest ≡ take_sdu loop lcid byte rest
  unfolding after_header
  after_header_short byte rest =
      rw (mask6 lcid (omega arith), short_flag lcid (omega arith)) (ground arith)

  after_header_long :
      (high low : ℕ) (rest : List ℕ)
      → high < 256
      → low < 256
      → after_header loop (bit_or 0x40 lcid) high (low ∷ rest)
        ≡ take_sdu loop lcid (high * 256 + low) rest
  unfolding after_header long_length
  after_header_long high low rest h l =
      rw
        (
          long_lcid lcid (omega arith),
          long_flag lcid (omega arith),
          shifted high h,
          bit_or_low 8 high low (omega arith),
        )
        (ground arith)

-- One round of the loop over an SDU that was built reads that SDU.
parse_loop-subheader :
    (fuel : ℕ) (s : Sdu) (tail : List ℕ)
    → IsSendable s
    → parse_loop (suc fuel) (subheader s.lcid (u16 (length s.bytes)) ++ (s.bytes ++ tail))
      ≡ s ∷ parse_loop fuel tail
unfolding parse_loop subheader
parse_loop-subheader fuel s tail h = elim (Bool-cases (leb (length s.bytes) 255)) [
  | inl short ↦
      rw (small_length s h.1, short, mask6 s.lcid (omega arith), u8-length s short)
        (after_header_short (parse_loop fuel) s.lcid h.0 (length s.bytes) (s.bytes ++ tail)
          ∙ take_sdu-append (parse_loop fuel) s tail)
  | inr long ↦
      rw (small_length s h.1, long, mask6 s.lcid (omega arith))
        (after_header_long (parse_loop fuel) s.lcid h.0 (u8 (length s.bytes / 2 ^ 8))
            (u8 (bit_and (length s.bytes) 0xff)) (s.bytes ++ tail) (omega arith) (omega arith)
          ∙ rw (two_bytes (length s.bytes) h.1) (take_sdu-append (parse_loop fuel) s tail))
]

length-round :
    (lcid len : ℕ) (bytes built pad : List ℕ)
    → 2 + length (built ++ pad) ≤ length ((subheader lcid len ++ (bytes ++ built)) ++ pad)
unfolding subheader
length-round lcid len bytes built pad =
    ground (
      arith,
      length-append bytes built,
      length-append (bytes ++ built) pad,
      length-append built pad,
    )

parse_loop_padding : (fuel : ℕ) (pad : List ℕ) → IsPadding pad → parse_loop fuel pad ≡ []
unfolding parse_loop after_header
parse_loop_padding zero pad h = refl
parse_loop_padding (suc fuel) [] h = refl
parse_loop_padding (suc fuel) (x ∷ []) h = refl
parse_loop_padding (suc fuel) (x ∷ y ∷ rest) h = rw h refl

parse_loop-build_pdu :
    (fuel : ℕ) (ss : List Sdu) (pad : List ℕ)
    → AllSendable ss
    → IsPadding pad
    → length (build_pdu ss ++ pad) ≤ fuel
    → parse_loop fuel (build_pdu ss ++ pad) ≡ ss
unfolding build_pdu
parse_loop-build_pdu fuel [] pad h p le = parse_loop_padding fuel pad p
parse_loop-build_pdu zero (s ∷ ss) pad h p le =
    absurd (omega (arith, length-round s.lcid (u16 (length s.bytes)) s.bytes (build_pdu ss) pad))
parse_loop-build_pdu (suc fuel) (s ∷ ss) pad h p le =
    rw (append_assoc (subheader s.lcid (u16 (length s.bytes))), append_assoc s.bytes)
      (parse_loop-subheader fuel s (build_pdu ss ++ pad) h.0
        ∙ ap (◌∷◌ s) (
            parse_loop-build_pdu fuel ss pad h.1 p (
              omega
                (arith, length-round s.lcid (u16 (length s.bytes)) s.bytes (build_pdu ss) pad))))

-- Whatever SDUs are multiplexed, on channels other than padding and of at most 65535 bytes each,
-- the parser recovers all of them in order from the PDU, and ignores the padding behind them.
pub parse_pdu-build_pdu :
    (ss : List Sdu) (pad : List ℕ)
    → AllSendable ss
    → IsPadding pad
    → parse_pdu (build_pdu ss ++ pad) ≡ ss
unfolding parse_pdu
parse_pdu-build_pdu ss pad h p = parse_loop-build_pdu _ ss pad h p (omega arith)
