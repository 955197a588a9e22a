-- ===== src/Phy/Fec/Trellis.antt =====
-- stack/phy/src/fec.cpp, `parity`, `Trellis`, `coded_size` and `fec_encode`: the convolutional code of
-- constraint length 7 and rate 1/2. The trellis tables are functions of a state and an input bit.
pub mod Tables
use aether_stack.Base.{
  ℕ, zero, suc, ◌+◌, ◌*◌, ◌/◌, ◌^◌, List, [], ◌∷◌, ◌++◌, map, bit_and, bit_or, bit_xor, replicate,
  u8, if◌then◌else◌, ◌==◌,
}
use aether_stack.Phy.Fec.BitOrder.{truth}

abbrev pub num_states : ℕ
num_states = 64

parity : ℕ → ℕ
parity v =
    let a = bit_xor v (v / 2 ^ 16) in
    let b = bit_xor a (a / 2 ^ 8) in
    let c = bit_xor b (b / 2 ^ 4) in let d = bit_xor c (c / 2 ^ 2) in bit_and (bit_xor d (d / 2)) 1

-- The register: the input bit above the six bits of the state.
register : ℕ → ℕ → ℕ
register s input = bit_or (input * 2 ^ 6) s

unfoldable pub next_state : ℕ → ℕ → ℕ
unfolding register
next_state s input = u8 (register s input / 2)

-- The two output bits, by the generators 133o and 171o.
unfoldable pub output : ℕ → ℕ → ℕ
unfolding register parity
output s input = u8 (
    bit_or (parity (bit_and (register s input) 0o133) * 2)
      (parity (bit_and (register s input) 0o171)))

unfoldable pub coded_size : ℕ → ℕ
coded_size n = (n + 6) * 2

-- The calls of `emit` for a list of inputs, from a state: the bits pushed and the state after them.
unfoldable pub emit_all : ℕ → List ℕ → List ℕ × ℕ
emit_all state [] = ([], state)
emit_all state (input ∷ rest) =
    let (out, last) = emit_all (next_state state input) rest in
    (output state input / 2 ∷ bit_and (output state input) 1 ∷ out, last)

unfoldable pub fec_encode : List ℕ → List ℕ
unfolding emit_all
fec_encode bits =
    let (coded, state) = emit_all 0 (map truth bits) in coded ++ (emit_all state (replicate 6 0)).0
