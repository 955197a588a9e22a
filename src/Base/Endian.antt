-- ===== src/Base/Endian.antt =====
-- Words of 32 bits in four bytes, the lowest first, as several codecs write and read them.
use aether_stack.Base.{
  ℕ, ◌+◌, ◌*◌, ◌/◌, ◌%◌, ◌^◌, ◌<◌, ◌≡◌, ◌∙◌, List, [], ◌∷◌, arith, bit_and, bit_or, u8, u32,
}
use aether_stack.Base.Bits.{bit_and_mask, word_of_bytes, bit_or_low, bit_or_comm}

unfoldable pub bytes32 : ℕ → List ℕ
bytes32 t =
    u8 (bit_and t 0xff)
    ∷ u8 (bit_and (t / 2 ^ 8) 0xff)
    ∷ u8 (bit_and (t / 2 ^ 16) 0xff)
    ∷ u8 (bit_and (t / 2 ^ 24) 0xff)
    ∷ []

unfoldable pub word32 : ℕ → ℕ → ℕ → ℕ → ℕ
word32 a b c d = u32 (bit_or (bit_or (bit_or a (b * 2 ^ 8)) (c * 2 ^ 16)) (d * 2 ^ 24))

pub word32-bytes32 :
    (t : ℕ)
    → t < 2 ^ 32
    → word32
        (u8 (bit_and t 0xff))
        (u8 (bit_and (t / 2 ^ 8) 0xff))
        (u8 (bit_and (t / 2 ^ 16) 0xff))
        (u8 (bit_and (t / 2 ^ 24) 0xff))
      ≡ t
unfolding word32
word32-bytes32 t h =
    let a = t % 256 in
    let b = t / 2 ^ 8 % 256 in
    let c = t / 2 ^ 16 % 256 in
    let d = t / 2 ^ 24 % 256 in
    let e0 : u8 (bit_and t 0xff) ≡ a = omega (arith, bit_and_mask 8 t) in
    let e1 : u8 (bit_and (t / 2 ^ 8) 0xff) ≡ b = omega (arith, bit_and_mask 8 (t / 2 ^ 8)) in
    let e2 : u8 (bit_and (t / 2 ^ 16) 0xff) ≡ c = omega (arith, bit_and_mask 8 (t / 2 ^ 16)) in
    let e3 : u8 (bit_and (t / 2 ^ 24) 0xff) ≡ d = omega (arith, bit_and_mask 8 (t / 2 ^ 24)) in
    let two = word_of_bytes a b (omega arith) in
    let three : bit_or (b * 256 + a) (c * 2 ^ 16) ≡ c * 2 ^ 16 + (b * 256 + a) =
      bit_or_comm (b * 256 + a) (c * 2 ^ 16) ∙ bit_or_low 16 c (b * 256 + a) (omega arith) in
    let four : bit_or (c * 2 ^ 16 + (b * 256 + a)) (d * 2 ^ 24)
        ≡ d * 2 ^ 24 + (c * 2 ^ 16 + (b * 256 + a)) =
      bit_or_comm (c * 2 ^ 16 + (b * 256 + a)) (d * 2 ^ 24)
      ∙ bit_or_low 24 d (c * 2 ^ 16 + (b * 256 + a)) (omega arith) in
    rw (e0, e1, e2, e3) (rw (two, three, four) (omega (arith, h)))
