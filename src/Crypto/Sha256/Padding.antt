-- ===== src/Crypto/Sha256/Padding.antt =====
-- The loop that pads with zeros ends, within the 72 bytes of `tail`.
use aether_stack.Base.{
  ℕ, zero, suc, ◌+◌, ◌-◌, ◌%◌, ◌≤◌, ◌<◌, ◌≡◌, refl, List, [], ◌∷◌, ◌++◌, arith, length,
  length-append, ◌==◌, Bool-cases, inl, inr, ==_iff,
}
use aether_stack.Crypto.Sha256.{pad_zeros, length_bytes, padding}

length-length_bytes : (n i bits : ℕ) → length (length_bytes n i bits) ≡ n
unfolding length_bytes
length-length_bytes zero i bits = refl
length-length_bytes (suc n) i bits = omega (arith, length-length_bytes n (i + 1) bits)

abbrev Padded : ℕ → List ℕ → ℕ → Type 0
Padded buf_len tail bound = ((buf_len + length tail) % 64 ≡ 56) × (length tail ≤ bound)

-- Where a multiple of the block, less 8, is `j` bytes ahead, the loop goes no further.
pad_zeros-Padded :
    (fuel j buf_len : ℕ) (tail : List ℕ)
    → j < fuel
    → (buf_len + length tail + j) % 64 ≡ 56
    → Padded buf_len (pad_zeros fuel buf_len tail) (length tail + j)
unfolding pad_zeros
pad_zeros-Padded zero j buf_len tail h e = absurd (omega arith)
pad_zeros-Padded (suc fuel) zero buf_len tail h e =
    let stop = (==_iff ((buf_len + length tail) % 64) 56).1 (omega (arith, e)) in
    rw stop (omega (arith, e), omega arith)
pad_zeros-Padded (suc fuel) (suc j) buf_len tail h e =
    elim (Bool-cases ((buf_len + length tail) % 64 == 56)) [
      | inl stop ↦ rw stop ((==_iff ((buf_len + length tail) % 64) 56).0 stop, omega arith)
      | inr more ↦ rw more (
          let n = length-append tail (0 ∷ []) in
          let rest =
            pad_zeros-Padded fuel j buf_len (tail ++ (0 ∷ [])) (omega arith)
              (omega (arith, n, e)) in
          (rest.0, omega (arith, rest.1, n)))
    ]

-- From every fill of the buffer the padding ends a block: the loop stops, with the buffer the
-- padding is a whole number of blocks, and the 72 bytes that the code has for it are enough. (The
-- buffer holds less than a block.)
pub padding-ends :
    (buf_len bits : ℕ)
    → buf_len < 64
    → ((buf_len + length (padding buf_len bits)) % 64 ≡ 0) × (length (padding buf_len bits) ≤ 72)
unfolding padding
padding-ends buf_len bits h =
    let zeros = pad_zeros 64 buf_len (0x80 ∷ []) in
    let j = (119 - buf_len) % 64 in
    let p = pad_zeros-Padded 64 j buf_len (0x80 ∷ []) (omega arith) (omega arith) in
    let n = length-append zeros (length_bytes 8 0 bits) in
    let eight = length-length_bytes 8 0 bits in
    (omega (arith, p.0, n, eight), omega (arith, p.1, n, eight))
