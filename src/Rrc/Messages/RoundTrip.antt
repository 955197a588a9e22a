-- ===== src/Rrc/Messages/RoundTrip.antt =====
-- A system information block is read back.
use aether_stack.Base.{
  ℕ, ◌+◌, ◌*◌, ◌/◌, ◌^◌, ◌<◌, ◌≡◌, refl, ap, ap₂, ◌∙◌, List, [], ◌∷◌, ◌++◌, arith, false, bit_and,
  bit_or, length, length-append, ltb, ◌==◌, u8, u16,
}
use aether_stack.Base.Bits.{bit_and_mask, word_of_bytes}
use aether_stack.Rrc.Messages.{
  Sib1, sib1_broadcast, put_word, get_word, encode_sib1, name_of, behind_name, sib1_of, decode_sib1,
}

-- No byte of a name is zero.
unfoldable pub NoZero : List ℕ → Type 0
NoZero [] = Unit
NoZero (c ∷ name) = (0 < c) × NoZero name

name_of-append : (name rest : List ℕ) → NoZero name → name_of (name ++ 0 ∷ rest) ≡ name
unfolding NoZero name_of
name_of-append [] rest h = refl
name_of-append (c ∷ name) rest h =
    let other : (c == 0) ≡ false = ground (arith, h.0) in
    rw (other, name_of-append name rest h.1) refl

behind_name-append : (name rest : List ℕ) → NoZero name → behind_name (name ++ 0 ∷ rest) ≡ rest
unfolding NoZero behind_name
behind_name-append [] rest h = refl
behind_name-append (c ∷ name) rest h =
    let other : (c == 0) ≡ false = ground (arith, h.0) in
    rw other (behind_name-append name rest h.1)

word_read :
    (x : ℕ)
    → x < 2 ^ 16
    → u16 (bit_or (u8 (bit_and x 0xff)) (u8 (bit_and (x / 2 ^ 8) 0xff) * 2 ^ 8)) ≡ x
word_read x h =
    let lo = bit_and_mask 8 x in
    let hi = bit_and_mask 8 (x / 2 ^ 8) in
    ap u16 (word_of_bytes (u8 (bit_and x 0xff)) (u8 (bit_and (x / 2 ^ 8) 0xff)) (omega arith))
    ∙ omega (arith, lo, hi, h)

decode_sib1_long :
    (t : ℕ) (bytes : List ℕ)
    → ltb (1 + length bytes) 7 ≡ false
    → decode_sib1 (t ∷ bytes) ≡ sib1_of (name_of bytes) (behind_name bytes)
unfolding decode_sib1
decode_sib1_long t bytes h = rw h refl

encode_sib1_parts :
    (s : Sib1)
    → encode_sib1 s ≡ sib1_broadcast ∷ (s.plmn_id ++ (0 ∷ (put_word s.tac ++ put_word s.cell_id)))
unfolding encode_sib1
encode_sib1_parts s = refl

read_back :
    (s : Sib1)
    → s.tac < 2 ^ 16
    → s.cell_id < 2 ^ 16
    → sib1_of s.plmn_id (put_word s.tac ++ put_word s.cell_id) ≡ s
unfolding sib1_of put_word get_word
read_back s t c = rw (word_read s.tac t, word_read s.cell_id c) refl

-- A block is decoded to itself. (Its numbers have 16 bits, and its network name is not empty and has
-- no zero byte.)
pub decode_sib1-encode_sib1 :
    (s : Sib1)
    → s.tac < 2 ^ 16
    → s.cell_id < 2 ^ 16
    → 0 < length s.plmn_id
    → NoZero s.plmn_id
    → decode_sib1 (encode_sib1 s) ≡ s
decode_sib1-encode_sib1 s t c n z =
    let rest = put_word s.tac ++ put_word s.cell_id in
    let length_rest : length rest ≡ 4 = unfold put_word in refl in
    ap decode_sib1 (encode_sib1_parts s)
    ∙ decode_sib1_long sib1_broadcast (s.plmn_id ++ 0 ∷ rest)
        (ground (arith, length-append s.plmn_id (0 ∷ rest), length_rest, n))
    ∙ ap₂ sib1_of (name_of-append s.plmn_id rest z) (behind_name-append s.plmn_id rest z)
    ∙ read_back s t c
