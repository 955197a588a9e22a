-- ===== src/Phy/Fec/BitOrder/RoundTrip.antt =====
-- Bytes survive the way through bits and back.
use native.Mathlib.Nat.{add-zero}
use aether_stack.Base.{
  get_or-length, set-length, snoc, true, ℕ, ◌+◌, ◌*◌, ◌/◌, ◌%◌, ◌^◌, ◌<◌, ◌≡◌, refl, sym, ap, ◌∙◌,
  List, [], ◌∷◌, ◌++◌, some, bit_and, bit_or, ◌==◌, length, replicate, u8, arith, length-append,
  IsBytes,
}
use aether_stack.Base.Bits.{eq_below, checks}
use aether_stack.Phy.Fec.BitOrder.{push_bits, bytes_to_bits, truth, fill_bytes, bits_to_bytes}

abbrev write_bit : ℕ → ℕ → ℕ → ℕ
write_bit b j x = u8 (bit_or x (u8 (truth b * 2 ^ j)))

byte_index : (i j : ℕ) (front : List ℕ) → i ≡ 8 * length front → j < 8 → (i + j) / 8 ≡ length front
byte_index i j front at bit = omega arith

bit_index : (i j : ℕ) (front : List ℕ) → i ≡ 8 * length front → j < 8 → (i + j) % 8 ≡ j
bit_index i j front at bit = omega arith

-- One bit goes into the byte that is being filled.
fill_bytes-cons :
    (b : ℕ) (bs : List ℕ) (i j : ℕ) (front : List ℕ) (x : ℕ) (back : List ℕ)
    → i ≡ 8 * length front
    → j < 8
    → fill_bytes (b ∷ bs) (i + j) (front ++ x ∷ back)
      ≡ fill_bytes bs (i + j + 1) (front ++ write_bit b j x ∷ back)
unfolding fill_bytes
fill_bytes-cons b bs i j front x back at bit =
    rw
      (
        byte_index i j front at bit,
        bit_index i j front at bit,
        get_or-length front x back 0,
        set-length front x (write_bit b j x) back,
      )
      refl

abbrev reassemble : ℕ → ℕ
reassemble byte = write_bit (bit_and (byte / 128) 1) 7 (
    write_bit (bit_and (byte / 64) 1) 6 (
      write_bit (bit_and (byte / 32) 1) 5 (
        write_bit (bit_and (byte / 16) 1) 4 (
          write_bit (bit_and (byte / 8) 1) 3 (
            write_bit (bit_and (byte / 4) 1) 2
              (write_bit (bit_and (byte / 2) 1) 1 (write_bit (bit_and (byte / 1) 1) 0 0)))))))

reassemble_lem : (byte : ℕ) → byte < 256 → reassemble byte ≡ byte
reassemble_lem = eq_below 256 _ (λ b. b) (unfold checks in refl)

-- The next bit of a byte that starts at position `i`.
fill_next :
    (b : ℕ) (bs : List ℕ) (i j k : ℕ) (front : List ℕ) (x : ℕ) (back : List ℕ)
    → i ≡ 8 * length front
    → j < 8
    → j + 1 ≡ k
    → fill_bytes (b ∷ bs) (i + j) (front ++ x ∷ back)
      ≡ fill_bytes bs (i + k) (front ++ write_bit b j x ∷ back)
fill_next b bs i j k front x back at bit e =
    fill_bytes-cons b bs i j front x back at bit
    ∙ ap (λ n. fill_bytes bs n (front ++ write_bit b j x ∷ back)) (omega arith)

-- Eight bits of a byte fill the next empty byte with it.
fill_bytes-push_bits :
    (byte : ℕ) (bs : List ℕ) (i : ℕ) (front back : List ℕ)
    → byte < 256
    → i ≡ 8 * length front
    → fill_bytes (push_bits 8 0 byte ++ bs) (i + 0) (front ++ 0 ∷ back)
      ≡ fill_bytes bs (i + 8) (front ++ byte ∷ back)
unfolding push_bits
fill_bytes-push_bits byte bs i front back small at =
    fill_next _ _ i 0 1 front _ back at (omega arith) refl
    ∙ fill_next _ _ i 1 2 front _ back at (omega arith) refl
    ∙ fill_next _ _ i 2 3 front _ back at (omega arith) refl
    ∙ fill_next _ _ i 3 4 front _ back at (omega arith) refl
    ∙ fill_next _ _ i 4 5 front _ back at (omega arith) refl
    ∙ fill_next _ _ i 5 6 front _ back at (omega arith) refl
    ∙ fill_next _ _ i 6 7 front _ back at (omega arith) refl
    ∙ fill_next _ _ i 7 8 front _ back at (omega arith) refl
    ∙ ap (λ b. fill_bytes bs (i + 8) (front ++ b ∷ back)) (reassemble_lem byte small)

fill_bytes-bytes_to_bits :
    (bytes : List ℕ) (i : ℕ) (front : List ℕ)
    → IsBytes bytes
    → i ≡ 8 * length front
    → fill_bytes (bytes_to_bits bytes) (i + 0) (front ++ replicate (length bytes) 0)
      ≡ front ++ bytes
unfolding bytes_to_bits
fill_bytes-bytes_to_bits [] i front h at = unfold fill_bytes in refl
fill_bytes-bytes_to_bits (b ∷ bytes) i front h at =
    fill_bytes-push_bits b (bytes_to_bits bytes) i front (replicate (length bytes) 0) h.0 at
    ∙ rw (snoc front b (replicate (length bytes) 0), snoc front b bytes, sym (add-zero (i + 8)))
        (fill_bytes-bytes_to_bits bytes (i + 8) (front ++ b ∷ []) h.1
          (omega (arith, length-append front (b ∷ []))))

pub length-bytes_to_bits : (bytes : List ℕ) → length (bytes_to_bits bytes) ≡ 8 * length bytes
unfolding bytes_to_bits
length-bytes_to_bits [] = omega arith
length-bytes_to_bits (b ∷ bytes) = omega (arith, length-bytes_to_bits bytes)

whole : (n : ℕ) → (8 * n % 8 == 0) ≡ true
whole n = ground arith

bytes_of : (n : ℕ) → 8 * n / 8 ≡ n
bytes_of n = omega arith

-- Every list of bytes is read back from its bits.
-- (Each is below 256.)
pub bits_to_bytes-bytes_to_bits :
    (bytes : List ℕ) → IsBytes bytes → bits_to_bytes (bytes_to_bits bytes) ≡ some bytes
unfolding bits_to_bytes
bits_to_bytes-bytes_to_bits bytes h =
    rw (length-bytes_to_bits bytes, whole (length bytes), bytes_of (length bytes))
      (ap some (fill_bytes-bytes_to_bits bytes 0 [] h (omega arith)))
