-- ===== src/Core/Frames/Burst.antt =====
-- A payload is read back from a burst, whatever bits follow it.
use aether_stack.Base.{
  ℕ, zero, suc, ◌+◌, ◌*◌, ◌/◌, ◌%◌, ◌^◌, ◌<◌, ◌≤◌, false, ◌≡◌, refl, sym, ap, ap₂, ◌∙◌, List, [],
  ◌∷◌, ◌++◌, some, arith, IsBytes, bit_and, bit_or, u8, u16, length, get_or, append_assoc,
  append-nil, length-append, ◌==◌, Bool-cases, inl, inr, ltb,
}
use aether_stack.Base.Bits.{bit_and_mask, word_of_bytes, eq_below, checks}
use aether_stack.Core.Frames.{
  pad_bits_to_even, value_bits, append_byte_bits, append_payload, pack_air_bits, or_bits, read_byte,
  read_bytes, unpack_air_bits,
}

get_or-at :
    (front back : List ℕ) (n i : ℕ)
    → n ≡ length front
    → get_or (front ++ back) (n + i) 0 ≡ get_or back i 0
get_or-at [] back n i e = ap (λ k. get_or back k 0) (omega (arith, e))
get_or-at (x ∷ front) back zero i e = absurd (omega arith)
get_or-at (x ∷ front) back (suc n) i e =
    let next : suc n + i ≡ suc (n + i) = omega arith in
    ap (λ k. get_or (x ∷ (front ++ back)) k 0) next ∙ get_or-at front back n i (omega arith)

abbrev write : ℕ → ℕ → ℕ → ℕ
write b i value = bit_or value (u8 (bit_and (bit_and (b / 2 ^ i) 1) 1 * 2 ^ i))

abbrev reread : ℕ → ℕ
reread b =
    write b 7 (write b 6 (write b 5 (write b 4 (write b 3 (write b 2 (write b 1 (write b 0 0)))))))

reread_lem : (b : ℕ) → b < 256 → reread b ≡ b
reread_lem = eq_below 256 _ (λ b. b) (unfold checks in refl)

-- The eight bits of a byte at an offset are read as that byte.
read_byte-value_bits :
    (front : List ℕ) (b : ℕ) (back : List ℕ) (n : ℕ)
    → b < 256
    → n ≡ length front
    → read_byte (front ++ (value_bits 8 0 b ++ back)) n ≡ b
unfolding read_byte or_bits value_bits
read_byte-value_bits front b back n h e =
    let bits = value_bits 8 0 b ++ back in
    rw
      (
        get_or-at front bits n 0 e,
        get_or-at front bits n 1 e,
        get_or-at front bits n 2 e,
        get_or-at front bits n 3 e,
        get_or-at front bits n 4 e,
        get_or-at front bits n 5 e,
        get_or-at front bits n 6 e,
        get_or-at front bits n 7 e,
      )
      (reread_lem b h)

unfoldable all_bits : List ℕ → List ℕ
all_bits [] = []
all_bits (b ∷ bs) = value_bits 8 0 b ++ all_bits bs

length-value_bits : (n i b : ℕ) → length (value_bits n i b) ≡ n
unfolding value_bits
length-value_bits zero i b = refl
length-value_bits (suc n) i b = omega (arith, length-value_bits n (i + 1) b)

length-all_bits : (bs : List ℕ) → length (all_bits bs) ≡ 8 * length bs
unfolding all_bits
length-all_bits [] = refl
length-all_bits (b ∷ bs) = omega (
  arith,
  length-append (value_bits 8 0 b) (all_bits bs),
  length-value_bits 8 0 b,
  length-all_bits bs,
)

append_payload_lem : (bits bs : List ℕ) → append_payload bits bs ≡ bits ++ all_bits bs
unfolding append_payload all_bits
append_payload_lem bits [] = sym (append-nil bits)
append_payload_lem bits (b ∷ bs) =
    append_payload_lem (append_byte_bits bits b) bs
    ∙ unfold append_byte_bits in append_assoc bits (value_bits 8 0 b) (all_bits bs)

-- Bytes that were written one after the other are read one after the other.
read_bytes-all_bits :
    (bs front back : List ℕ) (i : ℕ)
    → IsBytes bs
    → 16 + i * 8 ≡ length front
    → read_bytes (length bs) i (front ++ (all_bits bs ++ back)) ≡ bs
unfolding read_bytes all_bits
read_bytes-all_bits [] front back i h e = refl
read_bytes-all_bits (b ∷ bs) front back i h e =
    let here = value_bits 8 0 b in
    let tail = all_bits bs ++ back in
    rw (append_assoc here (all_bits bs) back) (
      ap₂ ◌∷◌ (read_byte-value_bits front b tail (16 + i * 8) h.0 e) (
        ap (read_bytes (length bs) (i + 1)) (sym (append_assoc front here tail))
        ∙ read_bytes-all_bits bs (front ++ here) back (i + 1) h.1
            (omega (arith, length-append front here, length-value_bits 8 0 b, e))))

padded : (bits : List ℕ) → (pad : List ℕ) × (pad_bits_to_even bits ≡ bits ++ pad)
unfolding pad_bits_to_even
padded bits = elim (Bool-cases (length bits % 2 == 0)) [
  | inl even ↦ ([], rw even (sym (append-nil bits)))
  | inr odd ↦ (0 ∷ [], rw odd refl)
]

abbrev low : List ℕ → ℕ
low p = u8 (bit_and (u16 (length p)) 0xff)

abbrev high : List ℕ → ℕ
high p = u8 (bit_and (u16 (length p) / 2 ^ 8) 0xff)

-- The burst of a payload: its length, its bytes and what pads it.
packed :
    (p : List ℕ)
    → (pad : List ℕ) × (pack_air_bits p
        ≡ (value_bits 8 0 (low p) ++ value_bits 8 0 (high p)) ++ (all_bits p ++ pad))
unfolding pack_air_bits append_byte_bits
packed p =
    let head = value_bits 8 0 (low p) ++ value_bits 8 0 (high p) in
    let r = padded (append_payload head p) in
    (r.0, r.1 ∙ ap (λ l. l ++ r.0) (append_payload_lem head p) ∙ append_assoc head (all_bits p) r.0)

-- Reading a burst with its three parts spelled out.
unpack_parts :
    (p back : List ℕ)
    → IsBytes p
    → length p < 65536
    → unpack_air_bits (value_bits 8 0 (low p) ++ (value_bits 8 0 (high p) ++ (all_bits p ++ back)))
      ≡ some p
unfolding unpack_air_bits
unpack_parts p back h small =
    let lo = value_bits 8 0 (low p) in
    let hi = value_bits 8 0 (high p) in
    let rest = all_bits p ++ back in
    rw
      (
        read_byte-value_bits [] (low p) (hi ++ rest) 0 (omega arith) refl,
        read_byte-value_bits lo (high p) rest 8 (omega arith)
            (omega (arith, length-value_bits 8 0 (low p))),
        word_of_bytes (low p) (high p) (omega arith),
        len_lem,
        lt_false (length (lo ++ (hi ++ rest))) 16 (omega (arith, size)),
        lt_false (length (lo ++ (hi ++ rest))) (16 + length p * 8) (omega (arith, size)),
      )
      (ap some (
        ap (read_bytes (length p) 0) (sym (append_assoc lo hi rest))
        ∙ read_bytes-all_bits p (lo ++ hi) back 0 h (
            omega (
              arith,
              length-append lo hi,
              length-value_bits 8 0 (low p),
              length-value_bits 8 0 (high p),
            ))))
  where
    size :
        length (value_bits 8 0 (low p) ++ (value_bits 8 0 (high p) ++ (all_bits p ++ back)))
        ≡ 16 + (8 * length p + length back)
    size = omega (
      arith,
      length-append (value_bits 8 0 (low p)) (value_bits 8 0 (high p) ++ (all_bits p ++ back)),
      length-append (value_bits 8 0 (high p)) (all_bits p ++ back),
      length-append (all_bits p) back,
      length-value_bits 8 0 (low p),
      length-value_bits 8 0 (high p),
      length-all_bits p,
    )

    lt_false : (a b : ℕ) → b ≤ a → ltb a b ≡ false
    lt_false a b h = ground (arith, h)

    len_lem : high p * 256 + low p ≡ length p
    len_lem =
        omega (arith, bit_and_mask 8 (u16 (length p)), bit_and_mask 8 (u16 (length p) / 2 ^ 8))

-- Every payload of bytes whose length fits the 16-bit prefix is read back from its burst, whatever
-- bits the receiver decodes after it.
pub unpack_air_bits-pack_air_bits :
    (p noise : List ℕ)
    → IsBytes p
    → length p < 65536
    → unpack_air_bits (pack_air_bits p ++ noise) ≡ some p
unpack_air_bits-pack_air_bits p noise h small =
    let r = packed p in
    let lo = value_bits 8 0 (low p) in
    let hi = value_bits 8 0 (high p) in
    ap (λ l. unpack_air_bits (l ++ noise)) r.1
    ∙ ap unpack_air_bits (
        append_assoc (lo ++ hi) (all_bits p ++ r.0) noise
        ∙ append_assoc lo hi ((all_bits p ++ r.0) ++ noise)
        ∙ ap (λ l. lo ++ (hi ++ l)) (append_assoc (all_bits p) r.0 noise))
    ∙ unpack_parts p (r.0 ++ noise) h small
