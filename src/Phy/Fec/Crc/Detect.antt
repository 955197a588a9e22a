-- ===== src/Phy/Fec/Crc/Detect.antt =====
-- The CRC tells apart any two payloads that differ in one byte.
use aether_stack.Base.{
  set-append_left, get_or-append_left, set-length, set-length_next, get_or-length,
  get_or-length_next, ℕ_discrete, length-append, ℕ, zero, suc, ◌+◌, ◌*◌, ◌/◌, ◌%◌, ◌^◌, ◌<◌, ◌≤◌,
  ◌≡◌, ◌≢◌, refl, sym, ap, ap₂, ◌∙◌, List, [], ◌∷◌, ◌++◌, bit_and, bit_xor, false, get_or, set,
  IsBytes, length, u8, u16, arith, dec_lt,
}
use aether_stack.Base.Bits.{
  bit_and_digit, bit_xor_cancel, bit_xor_comm, bit_xor-mod, bit_xor_parity,
}
use aether_stack.Phy.Fec.Crc.{
  crc_shift, crc_shifts, crc_byte, crc_from, crc16, crc_attach, crc_verify_strip,
}
use aether_stack.Phy.Fec.Crc.Attach.{crc_shift-lt, verify_split, fcs_bytes, crc16-lt, crc_byte-lt}

crc_shift_low : (x : ℕ) → x < 2 ^ 15 → crc_shift x ≡ x * 2
unfolding crc_shift
crc_shift_low x h = ground (arith, bit_and_digit 15 x)

crc_shift_high : (x : ℕ) → 2 ^ 15 ≤ x → x < 2 ^ 16 → crc_shift x ≡ bit_xor (x * 2 % 2 ^ 16) 0x1021
unfolding crc_shift
crc_shift_high x h k = ground (arith, bit_and_digit 15 x, bit_xor-mod 16 (x * 2) 0x1021)

-- What the generator polynomial's lowest digit leaves of the digit that is shifted out.
crc_shift_odd : (x : ℕ) → 2 ^ 15 ≤ x → x < 2 ^ 16 → crc_shift x % 2 ≡ 1
crc_shift_odd x h k = rw (crc_shift_high x h k, bit_xor_parity (x * 2 % 2 ^ 16) 0x1021, even x) refl
  where
    even : (n : ℕ) → n * 2 % 2 ^ 16 % 2 ≡ 0
    even n = omega arith

xor_injective : (a b c : ℕ) → bit_xor a c ≡ bit_xor b c → a ≡ b
xor_injective a b c e = sym (bit_xor_cancel a c) ∙ rw e (bit_xor_cancel b c)

crc_shift_injective : (x y : ℕ) → x < 2 ^ 16 → y < 2 ^ 16 → crc_shift x ≡ crc_shift y → x ≡ y
crc_shift_injective x y h k e = elim (dec_lt x (2 ^ 15)) [
  | yes p ↦ elim (dec_lt y (2 ^ 15)) [
    | yes q ↦ omega (arith, crc_shift_low x p, crc_shift_low y q)
    | no q ↦ absurd (omega (arith, crc_shift_low x p, crc_shift_odd y (omega arith) k))
  ]
  | no p ↦ elim (dec_lt y (2 ^ 15)) [
    | yes q ↦ absurd (omega (arith, crc_shift_low y q, crc_shift_odd x (omega arith) h))
    | no q ↦ omega (
      arith,
      xor_injective (x * 2 % 2 ^ 16) (y * 2 % 2 ^ 16) 0x1021
          (sym (crc_shift_high x (omega arith) h) ∙ e ∙ crc_shift_high y (omega arith) k),
    )
  ]
]

crc_shifts_injective :
    (n x y : ℕ) → x < 2 ^ 16 → y < 2 ^ 16 → crc_shifts n x ≡ crc_shifts n y → x ≡ y
unfolding crc_shifts
crc_shifts_injective zero x y h k e = e
crc_shifts_injective (suc n) x y h k e =
    crc_shift_injective x y h k
      (crc_shifts_injective n (crc_shift x) (crc_shift y) (crc_shift-lt x) (crc_shift-lt y) e)

masked_xor : (a b : ℕ) → a < 2 ^ 16 → b < 2 ^ 16 → u16 (bit_xor a b) ≡ bit_xor a b
masked_xor a b h k = bit_xor-mod 16 a b ∙ ap₂ bit_xor (omega arith) (omega arith)

byte_xor :
    (crc byte : ℕ)
    → crc < 2 ^ 16
    → byte < 256
    → u16 (bit_xor crc (u16 (byte * 2 ^ 8))) ≡ bit_xor crc (byte * 256)
byte_xor crc byte h k = rw (shifted byte k) (masked_xor crc (byte * 256) h (omega arith))
  where
    shifted : (b : ℕ) → b < 256 → u16 (b * 2 ^ 8) ≡ b * 256
    shifted b lt = omega arith

xor-lt : (a b : ℕ) → a < 2 ^ 16 → b < 2 ^ 16 → bit_xor a b < 2 ^ 16
xor-lt a b h k = omega (arith, masked_xor a b h k)

-- The register after a byte determines the register before it.
crc_byte_injective_crc :
    (x y byte : ℕ)
    → x < 2 ^ 16
    → y < 2 ^ 16
    → byte < 256
    → crc_byte x byte ≡ crc_byte y byte
    → x ≡ y
unfolding crc_byte
crc_byte_injective_crc x y byte h k b e = xor_injective x y (byte * 256) (
    sym (byte_xor x byte h b)
    ∙ crc_shifts_injective 8 _ _ (omega arith) (omega arith) e
    ∙ byte_xor y byte k b)

-- And, from the same register, the byte.
crc_byte_injective :
    (crc a b : ℕ) → crc < 2 ^ 16 → a < 256 → b < 256 → crc_byte crc a ≡ crc_byte crc b → a ≡ b
unfolding crc_byte
crc_byte_injective crc a b h k l e = omega (
  arith,
  xor_injective (a * 256) (b * 256) crc (
      bit_xor_comm (a * 256) crc
      ∙ sym (byte_xor crc a h k)
      ∙ crc_shifts_injective 8 _ _ (omega arith) (omega arith) e
      ∙ byte_xor crc b h l
      ∙ bit_xor_comm crc (b * 256)),
)

crc_from_injective :
    (q : List ℕ) (x y : ℕ)
    → IsBytes q
    → x < 2 ^ 16
    → y < 2 ^ 16
    → crc_from x q ≡ crc_from y q
    → x ≡ y
unfolding crc_from
crc_from_injective [] x y q h k e = e
crc_from_injective (b ∷ q) x y s h k e =
    crc_byte_injective_crc x y b h k s.0
      (crc_from_injective q (crc_byte x b) (crc_byte y b) s.1 (crc_byte-lt x b) (crc_byte-lt y b) e)

crc_from-set :
    (p : List ℕ) (i y crc : ℕ)
    → IsBytes p
    → i < length p
    → y < 256
    → crc < 2 ^ 16
    → crc_from crc (set p i y) ≡ crc_from crc p
    → get_or p i 0 ≡ y
unfolding crc_from
crc_from-set [] i y crc h lt k l e = absurd (omega arith)
crc_from-set (x ∷ p) zero y crc h lt k l e = crc_byte_injective crc x y l h.0 k (
    sym (
      crc_from_injective p (crc_byte crc y) (crc_byte crc x) h.1 (crc_byte-lt crc y)
        (crc_byte-lt crc x) e))
crc_from-set (x ∷ p) (suc i) y crc h lt k l e =
    crc_from-set p i y (crc_byte crc x) h.1 (omega arith) k (crc_byte-lt crc x) e

abbrev Rejected : List ℕ → Type 0
Rejected block = (old : List ℕ) → (crc_verify_strip block old).0 ≡ false

module _ (p : List ℕ) (lo hi y : ℕ) (lo_byte : lo < 256) (hi_byte : hi < 256) (byte : y < 256)
    (fcs : hi * 256 + lo ≡ crc16 p) where
  Rejected-payload :
      (i : ℕ)
      → IsBytes p
      → i < length p
      → get_or (p ++ lo ∷ hi ∷ []) i 0 ≢ y
      → Rejected (set (p ++ lo ∷ hi ∷ []) i y)
  unfolding crc16
  Rejected-payload i h lt ne old =
      rw
        (
          set-append_left p (lo ∷ hi ∷ []) i y lt,
          verify_split (set p i y) lo hi old lo_byte hi_byte,
          fcs,
        )
        (ground (
          arith,
          λ (e : crc16 (set p i y) ≡ crc16 p). ne (
              get_or-append_left p (lo ∷ hi ∷ []) i 0 lt
              ∙ crc_from-set p i y 0xffff h lt byte (omega arith) e),
        ))

  Rejected-low : lo ≢ y → Rejected (set (p ++ lo ∷ hi ∷ []) (length p) y)
  Rejected-low ne old =
      rw (set-length p lo y (hi ∷ []), verify_split p y hi old byte hi_byte) (ground arith)

  Rejected-high : hi ≢ y → Rejected (set (p ++ lo ∷ hi ∷ []) (suc (length p)) y)
  Rejected-high ne old =
      rw (set-length_next p lo hi y [], verify_split p lo y old lo_byte byte) (ground arith)

  Rejected-any :
      (i : ℕ)
      → IsBytes p
      → i < length (p ++ lo ∷ hi ∷ [])
      → get_or (p ++ lo ∷ hi ∷ []) i 0 ≢ y
      → Rejected (set (p ++ lo ∷ hi ∷ []) i y)
  Rejected-any i h lt ne = elim (dec_lt i (length p)) [
    | yes inside ↦ Rejected-payload i h inside ne
    | no outside ↦ elim (ℕ_discrete i (length p)) [
      | yes first ↦ rw first (
          Rejected-low λ e.
            ne
              (ap (λ n. get_or (p ++ lo ∷ hi ∷ []) n 0) first ∙ get_or-length p lo (hi ∷ []) 0 ∙ e))
      | no second ↦
          let last = last_index i lt outside second in
          rw last (
            Rejected-high λ e.
              ne (
                ap (λ n. get_or (p ++ lo ∷ hi ∷ []) n 0) last
                ∙ get_or-length_next p lo hi [] 0
                ∙ e))
    ]
  ]
    where
      last_index :
          (n : ℕ)
          → n < length (p ++ lo ∷ hi ∷ [])
          → ¬ (n < length p)
          → ¬ (n ≡ length p)
          → n ≡ suc (length p)
      last_index n a b c = omega (arith, length-append p (lo ∷ hi ∷ []))

-- A block in which any one byte, of the payload or of the check sequence, was changed to another
-- is not accepted.
-- (The payload is of bytes.)
pub crc_verify_strip-set :
    (payload : List ℕ) (i y : ℕ) (old : List ℕ)
    → IsBytes payload
    → i < length (crc_attach payload)
    → y < 256
    → get_or (crc_attach payload) i 0 ≢ y
    → (crc_verify_strip (set (crc_attach payload) i y) old).0 ≡ false
unfolding crc_attach
crc_verify_strip-set p i y old h lt byte ne =
    Rejected-any p (u8 (bit_and (crc16 p) 0xff)) (u8 (bit_and (crc16 p / 2 ^ 8) 0xff)) y
      (omega arith) (omega arith) byte (fcs_bytes (crc16 p) (crc16-lt p)) i h lt ne old
