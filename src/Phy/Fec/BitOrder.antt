-- ===== src/Phy/Fec/BitOrder.antt =====
-- stack/phy/src/fec.cpp, `bytes_to_bits_fec` and `bits_to_bytes_fec`: least significant bit first.
-- A bit is a byte of its own, as in the source. `none` stands for the thrown invalid_argument.
pub mod RoundTrip
pub mod Group
use aether_stack.Base.{
  ℕ, zero, suc, ◌+◌, ◌*◌, ◌/◌, ◌%◌, ◌^◌, List, [], ◌∷◌, ◌++◌, Option, none, some, not, bit_and,
  bit_or, ◌==◌, if◌then◌else◌, length, get_or, set, replicate, u8,
}

-- `for i in [i, i + n)`: push bit `i` of the byte.
pub push_bits : ℕ → ℕ → ℕ → List ℕ
push_bits zero i byte = []
push_bits (suc n) i byte = bit_and (byte / 2 ^ i) 1 ∷ push_bits n (i + 1) byte

unfoldable pub bytes_to_bits : List ℕ → List ℕ
unfolding push_bits
bytes_to_bits [] = []
bytes_to_bits (byte ∷ rest) = push_bits 8 0 byte ++ bytes_to_bits rest

-- `bits[i] ? 1u : 0u`
abbrev pub truth : ℕ → ℕ
truth b = if b == 0 then 0 else 1

-- `bytes[i / 8] |= truth << (i % 8)` for each bit from position `i` on.
fill_bytes : List ℕ → ℕ → List ℕ → List ℕ
fill_bytes [] i bytes = bytes
fill_bytes (b ∷ bs) i bytes =
    fill_bytes bs (i + 1)
      (set bytes (i / 8) (u8 (bit_or (get_or bytes (i / 8) 0) (u8 (truth b * 2 ^ (i % 8))))))

unfoldable pub bits_to_bytes : List ℕ → Option (List ℕ)
unfolding fill_bytes
bits_to_bytes bits =
    if not (length bits % 8 == 0)
    then none
    else some (fill_bytes bits 0 (replicate (length bits / 8) 0))
