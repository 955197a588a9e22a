-- ===== src/Phy/Fec/BitOrder/Group.antt =====
-- Every sequence of whole octets of bits is the bits of some bytes.
use aether_stack.Base.{
  AllBits, append-AllBits, ℕ, zero, suc, ◌+◌, ◌*◌, ◌/◌, ◌%◌, ◌^◌, ◌<◌, ◌≡◌, refl, sym, ap, ap₂, ◌∙◌,
  List, [], ◌∷◌, ◌++◌, some, bit_and, length, arith, IsBytes,
}
use aether_stack.Base.Bits.{bit_and_mask}
use aether_stack.Phy.Fec.BitOrder.{push_bits, bytes_to_bits, bits_to_bytes}
use aether_stack.Phy.Fec.BitOrder.RoundTrip.{bits_to_bytes-bytes_to_bits}

digit : (n i b : ℕ) → n / 2 ^ i % 2 ≡ b → bit_and (n / 2 ^ i) 1 ≡ b
digit n i b e = bit_and_mask 1 (n / 2 ^ i) ∙ e

push_bits-AllBits : (n i byte : ℕ) → AllBits (push_bits n i byte)
unfolding push_bits
push_bits-AllBits zero i byte = tt
push_bits-AllBits (suc n) i byte =
    (omega (arith, bit_and_mask 1 (byte / 2 ^ i)), push_bits-AllBits n (i + 1) byte)

pub bytes_to_bits-AllBits : (bytes : List ℕ) → AllBits (bytes_to_bits bytes)
unfolding bytes_to_bits
bytes_to_bits-AllBits [] = tt
bytes_to_bits-AllBits (b ∷ bytes) =
    append-AllBits (push_bits 8 0 b) (bytes_to_bits bytes) (push_bits-AllBits 8 0 b)
      (bytes_to_bits-AllBits bytes)

octet : ℕ → ℕ → ℕ → ℕ → ℕ → ℕ → ℕ → ℕ → ℕ
octet a b c d e f g h = a + 2 * (b + 2 * (c + 2 * (d + 2 * (e + 2 * (f + 2 * (g + 2 * h))))))

octet_bits :
    (a b c d e f g h : ℕ)
    → AllBits (a ∷ b ∷ c ∷ d ∷ e ∷ f ∷ g ∷ h ∷ [])
    → (octet a b c d e f g h < 256)
      × (push_bits 8 0 (octet a b c d e f g h) ≡ a ∷ b ∷ c ∷ d ∷ e ∷ f ∷ g ∷ h ∷ [])
unfolding octet push_bits
octet_bits a b c d e f g h k =
    let n = a + 2 * (b + 2 * (c + 2 * (d + 2 * (e + 2 * (f + 2 * (g + 2 * h)))))) in
    (
      omega arith,
      rw
          (
            digit n 0 a (omega arith),
            digit n 1 b (omega arith),
            digit n 2 c (omega arith),
            digit n 3 d (omega arith),
            digit n 4 e (omega arith),
            digit n 5 f (omega arith),
            digit n 6 g (omega arith),
            digit n 7 h (omega arith),
          )
          refl,
    )

pub record Grouped (bits : List ℕ) : Type 0 where
  pub bytes : List ℕ
  pub in_range : IsBytes bytes
  pub spells : bytes_to_bits bytes ≡ bits

pub grouped : (n : ℕ) (bits : List ℕ) → AllBits bits → length bits ≡ 8 * n → Grouped bits
grouped zero [] k l = record { bytes = []; in_range = tt; spells = unfold bytes_to_bits in refl }
grouped zero (x ∷ bits) k l = absurd (omega arith)
grouped (suc n) [] k l = absurd (omega arith)
grouped (suc n) (a ∷ []) k l = absurd (omega arith)
grouped (suc n) (a ∷ b ∷ []) k l = absurd (omega arith)
grouped (suc n) (a ∷ b ∷ c ∷ []) k l = absurd (omega arith)
grouped (suc n) (a ∷ b ∷ c ∷ d ∷ []) k l = absurd (omega arith)
grouped (suc n) (a ∷ b ∷ c ∷ d ∷ e ∷ []) k l = absurd (omega arith)
grouped (suc n) (a ∷ b ∷ c ∷ d ∷ e ∷ f ∷ []) k l = absurd (omega arith)
grouped (suc n) (a ∷ b ∷ c ∷ d ∷ e ∷ f ∷ g ∷ []) k l = absurd (omega arith)
grouped (suc n) (a ∷ b ∷ c ∷ d ∷ e ∷ f ∷ g ∷ h ∷ bits) k l =
    let first = octet_bits a b c d e f g h (omega arith) in
    let rest = grouped n bits k.1.1.1.1.1.1.1.1 (omega arith) in
    record {
      bytes = octet a b c d e f g h ∷ rest.bytes;
      in_range = (first.0, rest.in_range);
      spells = joined (octet a b c d e f g h) rest.bytes ∙ ap₂ ◌++◌ first.1 rest.spells;
    }
  where
    joined :
        (byte : ℕ) (bytes : List ℕ)
        → bytes_to_bits (byte ∷ bytes) ≡ push_bits 8 0 byte ++ bytes_to_bits bytes
    joined byte bytes = unfold bytes_to_bits in refl

-- Whole octets of bits are read as bytes, which have those bits again.
pub bits_to_bytes-Grouped : (bits : List ℕ) (g : Grouped bits) → bits_to_bytes bits ≡ some g.bytes
bits_to_bytes-Grouped bits g =
    ap bits_to_bytes (sym g.spells) ∙ bits_to_bytes-bytes_to_bits g.bytes g.in_range
