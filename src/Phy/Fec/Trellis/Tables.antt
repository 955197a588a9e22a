-- ===== src/Phy/Fec/Trellis/Tables.antt =====
-- What decoding relies on in the trellis, checked at all its 128 branches.
use aether_stack.Base.{
  ℕ, zero, suc, ◌/◌, ◌%◌, ◌<◌, ◌≡◌, ◌≢◌, refl, bit_and, Bool, true, ◌&&◌, ltb, ◌==◌, not, arith,
}
use aether_stack.Base.Bits.{checks, checked}
use aether_stack.Phy.Fec.Trellis.{next_state, output}

-- An input bit lands in the top bit of the next state, which is a state.
lands_test : ℕ → ℕ → Bool
lands_test input s =
    ltb (next_state s input) 64
    && (next_state s input / 32 % 2 == input)
    && ltb (output s input / 2) 2
    && ltb (bit_and (output s input) 1) 2

splits_test : ℕ → Bool
splits_test s = not (output s 0 / 2 == output s 1 / 2)

lands_zero : checks (lands_test 0) 64 ≡ true
unfolding checks lands_test next_state output
lands_zero = refl

lands_one : checks (lands_test 1) 64 ≡ true
unfolding checks lands_test next_state output
lands_one = refl

splits_all : checks splits_test 64 ≡ true
unfolding checks splits_test next_state output
splits_all = refl

abbrev pub Lands : ℕ → ℕ → Type 0
Lands s input =
    (next_state s input < 64)
    × (next_state s input / 32 % 2 ≡ input)
    × (output s input / 2 < 2)
    × (bit_and (output s input) 1 < 2)

of_test : (s input : ℕ) → lands_test input s ≡ true → Lands s input
unfolding lands_test
of_test s input h = ground arith

pub lands : (s input : ℕ) → s < 64 → input < 2 → Lands s input
lands s zero h k = of_test s 0 (checked (lands_test 0) 64 s h lands_zero)
lands s (suc zero) h k = of_test s 1 (checked (lands_test 1) 64 s h lands_one)
lands s (suc (suc n)) h k = absurd (omega arith)

-- From one state, the two inputs put out different first bits.
pub splits : (s : ℕ) → s < 64 → output s 0 / 2 ≢ output s 1 / 2
unfolding splits_test
splits s h = ground (arith, checked splits_test 64 s h splits_all)
