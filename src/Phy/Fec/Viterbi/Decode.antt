-- ===== src/Phy/Fec/Viterbi/Decode.antt =====
-- `fec_decode` as a whole: what it throws, that it decodes to a most likely message, and that it
-- gives back what `fec_encode` was given when no bit was received wrong.
use aether_stack.Base.{
  AllBits, ℕ, zero, suc, ◌+◌, ◌-◌, ◌*◌, ◌/◌, ◌%◌, ◌<◌, ◌≤◌, ◌≡◌, ◌↔◌, ◌⊎◌, refl, sym, ap, ap₂, ◌∙◌,
  subst, List, [], ◌∷◌, ◌++◌, arith, length, Option, none, some, map, bit_and, take, replicate,
  length-append, take-length-append, length-map,
}
use aether_stack.Phy.Fec.BitOrder.{truth}
use aether_stack.Phy.Fec.Trellis.{next_state, output, emit_all, fec_encode}
use aether_stack.Phy.Fec.Trellis.Tables.{lands, splits}
use aether_stack.Phy.Fec.Viterbi.{
  inf, Pair, pairs_from, weight, survivor, ok, invalid_argument, length_error, fec_decode,
}
use aether_stack.Phy.Fec.Viterbi.Optimal.{AllLight}
use aether_stack.Phy.Fec.Viterbi.Distance.{mismatch, distance, codeword, survivor_optimal}

pairs_from-AllLight :
    (soft : Option (List ℕ)) (step : ℕ) (coded : List ℕ) → AllLight (pairs_from soft step coded)
unfolding pairs_from
pairs_from-AllLight soft step [] = tt
pairs_from-AllLight soft step (c ∷ []) = tt
pairs_from-AllLight soft step (c0 ∷ c1 ∷ rest) = (
  weight-le soft (2 * step),
  weight-le soft (2 * step + 1),
  pairs_from-AllLight soft (step + 1) rest,
)
  where
    weight-le : (marks : Option (List ℕ)) (i : ℕ) → weight marks i ≤ 1
    weight-le none i = omega arith
    weight-le (some marks) i = ground arith

length-pairs_from :
    (soft : Option (List ℕ)) (step : ℕ) (coded : List ℕ)
    → length (pairs_from soft step coded) ≡ length coded / 2
unfolding pairs_from
length-pairs_from soft step [] = omega arith
length-pairs_from soft step (c ∷ []) = omega arith
length-pairs_from soft step (c0 ∷ c1 ∷ rest) = omega (arith, length-pairs_from soft (step + 1) rest)

pub length-emit_all : (s : ℕ) (is : List ℕ) → length (emit_all s is).0 ≡ 2 * length is
unfolding emit_all
length-emit_all s [] = omega arith
length-emit_all s (i ∷ is) = omega (arith, length-emit_all (next_state s i) is)

emit_all-append :
    (s : ℕ) (is js : List ℕ)
    → (emit_all s (is ++ js)).0 ≡ (emit_all s is).0 ++ (emit_all (emit_all s is).1 js).0
unfolding emit_all
emit_all-append s [] js = refl
emit_all-append s (i ∷ is) js = rw (emit_all-append (next_state s i) is js) refl

pub fec_encode-codeword :
    (bits : List ℕ) → fec_encode bits ≡ codeword (map truth bits ++ replicate 6 0)
unfolding fec_encode
fec_encode-codeword bits = sym (emit_all-append 0 (map truth bits) (replicate 6 0))

truth_bit : (b : ℕ) → b < 2 → truth b ≡ b
truth_bit b h = ground arith

-- What the encoder puts out is at distance 0 from itself.
distance_self :
    (s step : ℕ) (is : List ℕ)
    → s < 64
    → AllBits is
    → distance (pairs_from none step (emit_all s is).0) (emit_all s is).0 ≡ 0
unfolding pairs_from emit_all
distance_self s step [] h k = refl
distance_self s step (i ∷ is) h k =
    let b = lands s i h k.0 in
    rw (truth_bit (output s i / 2) b.2, truth_bit (bit_and (output s i) 1) b.3)
      (ground (arith, distance_self (next_state s i) (step + 1) is b.0 k.1))

same_input :
    (s i j : ℕ)
    → s < 64
    → i < 2
    → j < 2
    → mismatch (truth (output s i / 2)) (output s j / 2) 1 ≡ 0
    → j ≡ i
same_input s zero zero h k l e = refl
same_input s (suc zero) (suc zero) h k l e = refl
same_input s zero (suc zero) h k l e =
    absurd (ground (arith, splits s h, truth_bit (output s 0 / 2) (lands s 0 h k).2))
same_input s (suc zero) zero h k l e =
    absurd (ground (arith, splits s h, truth_bit (output s 1 / 2) (lands s 1 h k).2))
same_input s (suc (suc i)) j h k l e = absurd (omega arith)
same_input s zero (suc (suc j)) h k l e = absurd (omega arith)
same_input s (suc zero) (suc (suc j)) h k l e = absurd (omega arith)

-- And at distance 0 from no other sequence of that length.
distance_zero :
    (s step : ℕ) (is js : List ℕ)
    → s < 64
    → AllBits is
    → AllBits js
    → length js ≡ length is
    → distance (pairs_from none step (emit_all s is).0) (emit_all s js).0 ≡ 0
    → js ≡ is
unfolding pairs_from emit_all
distance_zero s step [] [] h k l e d = refl
distance_zero s step [] (j ∷ js) h k l e d = absurd (omega arith)
distance_zero s step (i ∷ is) [] h k l e d = absurd (omega arith)
distance_zero s step (i ∷ is) (j ∷ js) h k l e d =
    let same = same_input s i j h k.0 l.0 (omega (arith, d)) in
    let tail = tail_at same (omega (arith, d)) in
    ap₂ ◌∷◌ same (
      distance_zero (next_state s i) (step + 1) is js (lands s i h k.0).0 k.1 l.1 (omega arith)
        tail)
  where
    rest_at : ℕ → ℕ
    rest_at x =
        distance (pairs_from none (step + 1) (emit_all (next_state s i) is).0)
          (emit_all (next_state s x) js).0

    tail_at : j ≡ i → rest_at j ≡ 0 → rest_at i ≡ 0
    tail_at same t = subst (λ x. rest_at x ≡ 0) same t

truths-AllBits : (bits : List ℕ) → AllBits (map truth bits ++ replicate 6 0)
truths-AllBits [] = omega arith
truths-AllBits (b ∷ bits) = (ground arith, truths-AllBits bits)

decode_ok :
    (coded : List ℕ) (soft : Option (List ℕ))
    → length coded % 2 ≡ 0
    → 12 ≤ length coded
    → fec_decode coded soft ≡ ok (take (length coded / 2 - 6) (survivor (pairs_from soft 0 coded)))
unfolding fec_decode
decode_ok coded soft even long = ground arith

-- Received bits in an even number from 12 on decode, with or without erasure marks, to the first
-- bits of an input sequence whose coded bits are as near to them as those of any other sequence of
-- that length. (The count of pairs stays below 2 ^ 29, where the metrics fit the code's `int`.)
pub fec_decode_optimal :
    (coded : List ℕ) (soft : Option (List ℕ)) (other : List ℕ)
    → length coded % 2 ≡ 0
    → 12 ≤ length coded
    → length coded < inf
    → AllBits other
    → length other ≡ length coded / 2
    → (message : List ℕ) × (fec_decode coded soft ≡ ok (take (length coded / 2 - 6) message))
      × AllBits message
      × (length message ≡ length coded / 2)
      × (distance (pairs_from soft 0 coded) (codeword message)
          ≤ distance (pairs_from soft 0 coded) (codeword other))
fec_decode_optimal coded soft other even long few bits same =
    let rs = pairs_from soft 0 coded in
    let pairs = length-pairs_from soft 0 coded in
    let best =
      survivor_optimal rs (pairs_from-AllLight soft 0 coded) (omega (arith, pairs)) other bits
        (same ∙ sym pairs) in
    (survivor rs, decode_ok coded soft even long, best.0, best.1 ∙ pairs, best.2)

-- The lengths at which `fec_decode` throws: an odd number of bits or none is an invalid argument,
-- and 2 to 10 bits make the length that is left after the flush bits wrap around.
pub fec_decode_throws :
    (coded : List ℕ) (soft : Option (List ℕ))
    → ((fec_decode coded soft ≡ invalid_argument) ↔ ((length coded % 2 ≡ 1) ⊎ (length coded ≡ 0)))
      × ((fec_decode coded soft ≡ length_error)
          ↔ (length coded % 2 ≡ 0) × (0 < length coded) × (length coded < 12))
unfolding fec_decode
fec_decode_throws coded soft = (
  (λ e. ground arith, λ h. ground arith),
  (λ e. (ground arith, ground arith, ground arith), λ h. ground arith),
)

module _ (bits : List ℕ) (few : 2 * (length bits + 6) < inf) where
  sent : List ℕ
  sent = map truth bits ++ replicate 6 0

  length-sent : length sent ≡ length bits + 6
  unfolding sent
  length-sent = omega (arith, length-append (map truth bits) (replicate 6 0), length-map bits truth)

  abbrev received : List Pair
  received = pairs_from none 0 (codeword sent)

  length-received : length received ≡ length sent
  length-received = omega (arith, length-pairs_from none 0 (codeword sent), length-emit_all 0 sent)

  sent-AllBits : AllBits sent
  unfolding sent
  sent-AllBits = truths-AllBits bits

  survivor-sent : survivor received ≡ sent
  survivor-sent =
      let best =
        survivor_optimal received (pairs_from-AllLight none 0 (codeword sent))
          (omega (arith, length-received, length-sent)) sent sent-AllBits (sym length-received) in
      distance_zero 0 0 sent (survivor received) (omega arith) sent-AllBits best.0
        (best.1 ∙ length-received)
        (omega (arith, best.2, distance_self 0 0 sent (omega arith) sent-AllBits))

  length-codeword : length (codeword sent) ≡ 2 * (length bits + 6)
  length-codeword = omega (arith, length-emit_all 0 sent, length-sent)

  fec_decode-sent : fec_decode (codeword sent) none ≡ ok (map truth bits)
  fec_decode-sent =
      decode_ok (codeword sent) none (omega (arith, length-codeword))
        (omega (arith, length-codeword))
      ∙ rw (survivor-sent, count)
          (ap ok (unfold sent in take-length-append (map truth bits) (replicate 6 0)))
    where
      count : length (codeword sent) / 2 - 6 ≡ length (map truth bits)
      count = omega (arith, length-codeword, length-map bits truth)

-- Without transmission errors the decoder returns the bits that were encoded, as 0 or 1.
-- (Their coded length is below the code's infinity, 0x3fffffff.)
pub fec_decode-fec_encode :
    (bits : List ℕ)
    → 2 * (length bits + 6) < inf
    → fec_decode (fec_encode bits) none ≡ ok (map truth bits)
unfolding sent
fec_decode-fec_encode bits few =
    ap (λ c. fec_decode c none) (fec_encode-codeword bits) ∙ fec_decode-sent bits few
