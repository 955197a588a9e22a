-- ===== src/Phy/Tests.antt =====
-- Runs of the forward error correction at concrete inputs.
use aether_stack.Base.{
  ℕ, ◌-◌, ◌/◌, ◌≤◌, ◌≡◌, ◌↔◌, refl, List, [], ◌∷◌, Option, none, some, true, false, length, map,
  take, set, arith, AllBits,
}
use aether_stack.Phy.Fec.BitOrder.{truth}
use aether_stack.Phy.Fec.Crc.{crc16, crc_attach, crc_verify_strip}
use aether_stack.Phy.Fec.Crc.Attach.{crc_verify_strip_iff}
use aether_stack.Phy.Fec.Crc.Detect.{crc_verify_strip-set}
use aether_stack.Phy.Fec.Trellis.{fec_encode}
use aether_stack.Phy.Fec.Viterbi.{ok, pairs_from, fec_decode}
use aether_stack.Phy.Fec.Viterbi.Distance.{distance, codeword}
use aether_stack.Phy.Fec.Viterbi.Decode.{fec_decode_optimal, fec_decode-fec_encode}

abbrev message : List ℕ
message = 1 ∷ 0 ∷ 1 ∷ 1 ∷ 0 ∷ 0 ∷ 1 ∷ []

fec_decode-fec_encode_example : fec_decode (fec_encode message) none ≡ ok (map truth message)
fec_decode-fec_encode_example = fec_decode-fec_encode message (omega arith)

-- One received bit is wrong and one is marked as erased.
abbrev noisy : List ℕ
noisy = 1 ∷ 0 ∷ 0 ∷ 1 ∷ 1 ∷ 1 ∷ 0 ∷ 0 ∷ 1 ∷ 1 ∷ 0 ∷ 0 ∷ 1 ∷ 1 ∷ []

abbrev marks : Option (List ℕ)
marks = some (0 ∷ 0 ∷ 1 ∷ 0 ∷ 0 ∷ 0 ∷ 0 ∷ 0 ∷ 0 ∷ 0 ∷ 0 ∷ 0 ∷ 0 ∷ 0 ∷ [])

abbrev zeros : List ℕ
zeros = 0 ∷ 0 ∷ 0 ∷ 0 ∷ 0 ∷ 0 ∷ 0 ∷ []

fec_decode_optimal_example :
    (best : List ℕ) × (fec_decode noisy marks ≡ ok (take (length noisy / 2 - 6) best))
    × AllBits best
    × (length best ≡ length noisy / 2)
    × (distance (pairs_from marks 0 noisy) (codeword best)
        ≤ distance (pairs_from marks 0 noisy) (codeword zeros))
fec_decode_optimal_example =
    fec_decode_optimal noisy marks zeros (omega arith) (omega arith) (omega arith) (omega arith)
      (omega arith)

abbrev two_bits : List ℕ
two_bits = 1 ∷ 0 ∷ []

-- The check value of the CRC16's parameters.
crc16_check : crc16 (49 ∷ 50 ∷ 51 ∷ 52 ∷ 53 ∷ 54 ∷ 55 ∷ 56 ∷ 57 ∷ []) ≡ 0x29b1
unfolding crc16
crc16_check = refl

crc_verify_strip_iff_example :
    (crc_verify_strip (1 ∷ 2 ∷ 3 ∷ 4 ∷ []) [] ≡ (true, 1 ∷ 2 ∷ []))
    ↔ (1 ∷ 2 ∷ 3 ∷ 4 ∷ [] ≡ crc_attach (1 ∷ 2 ∷ []))
crc_verify_strip_iff_example =
    crc_verify_strip_iff (1 ∷ 2 ∷ 3 ∷ 4 ∷ []) (1 ∷ 2 ∷ []) [] (omega arith)

crc_verify_strip-set_example : (crc_verify_strip (set (crc_attach (7 ∷ 8 ∷ [])) 1 9) []).0 ≡ false
crc_verify_strip-set_example =
    crc_verify_strip-set (7 ∷ 8 ∷ []) 1 9 [] (omega arith) (unfold crc_attach in omega arith)
      (omega arith) (unfold crc_attach in λ e. omega (arith, e))
