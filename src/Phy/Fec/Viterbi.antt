-- ===== src/Phy/Fec/Viterbi.antt =====
-- stack/phy/src/fec.cpp, `fec_decode`: the Viterbi decoder. A metric `INT` is a natural number, which
-- the code's `int` holds up to 2 ^ 28 received pairs. The loop over the steps is recursion over the
-- received pairs; `hist` is kept newest first, which is the order in which the traceback reads it.
pub mod Select
pub mod Optimal
pub mod Distance
pub mod Decode
use aether_stack.Base.{
  ℕ, zero, suc, ◌+◌, ◌-◌, ◌*◌, ◌/◌, ◌%◌, ◌^◌, List, [], ◌∷◌, ◌++◌, Option, none, some, Bool, ◌||◌,
  not, bit_and, bit_or, bit_xor, length, get_or, set, take, replicate, u8, if◌then◌else◌, ◌==◌, ltb,
  leb,
}
use aether_stack.Phy.Fec.BitOrder.{truth}
use aether_stack.Phy.Fec.Trellis.{next_state, output}

abbrev pub inf : ℕ
inf = 0x3fffffff

-- A received pair with the weights of its two bits.
pub record Pair : Type 0 where
  pub r0 : ℕ
  pub r1 : ℕ
  pub w0 : ℕ
  pub w1 : ℕ

-- An erased bit, marked 2 in `soft`, costs nothing. A mark past the end of `soft`, where the code
-- reads out of bounds, is read as 0.
weight : Option (List ℕ) → ℕ → ℕ
weight none i = 1
weight (some marks) i = if get_or marks i 0 == 2 then 0 else 1

unfoldable pub pairs_from : Option (List ℕ) → ℕ → List ℕ → List Pair
unfolding weight
pairs_from soft step [] = []
pairs_from soft step (c ∷ []) = []
pairs_from soft step (c0 ∷ c1 ∷ rest) =
    record {
      r0 = truth c0;
      r1 = truth c1;
      w0 = weight soft (2 * step);
      w1 = weight soft (2 * step + 1);
    }
    ∷ pairs_from soft (step + 1) rest

-- The weighted Hamming distance between a received pair and a branch's output.
unfoldable pub branch_cost : Pair → ℕ → ℕ → ℕ
branch_cost r s input =
    (if bit_xor r.r0 (output s input / 2) == 0 then 0 else r.w0)
    + (if bit_xor r.r1 (bit_and (output s input) 1) == 0 then 0 else r.w1)

-- `pm_next` and the row of `hist` that is being written.
pub record Survivors : Type 0 where
  pub metric : List ℕ
  pub prev : List ℕ

-- The body of the loop over the two inputs of a state.
pub relax : Pair → List ℕ → ℕ → Survivors → ℕ → Survivors
relax r pm s v input =
    let cand = get_or pm s inf + branch_cost r s input in
    let ns = next_state s input in
    if ltb cand (get_or v.metric ns inf)
    then record { metric = set v.metric ns cand; prev = set v.prev ns (u8 s) }
    else v

pub relax_state : Pair → List ℕ → ℕ → Survivors → Survivors
unfolding relax
relax_state r pm s v = if leb inf (get_or pm s inf) then v else relax r pm s (relax r pm s v 0) 1

-- `for s in [s, s + n)`.
pub relax_states : ℕ → Pair → List ℕ → ℕ → Survivors → Survivors
unfolding relax_state
relax_states zero r pm s v = v
relax_states (suc n) r pm s v = relax_states n r pm (s + 1) (relax_state r pm s v)

pub select : Pair → List ℕ → Survivors
unfolding relax_states
select r pm = relax_states 64 r pm 0 (record { metric = replicate 64 inf; prev = replicate 64 0 })

-- The metrics after all steps, and the rows of `hist`, newest first.
pub forward : List Pair → List ℕ → List (List ℕ) → List ℕ × List (List ℕ)
unfolding select
forward [] pm hist = (pm, hist)
forward (r ∷ rs) pm hist = let v = select r pm in forward rs v.metric (v.prev ∷ hist)

-- `for s in [s, s + n)`: a state with a lower metric replaces the best so far.
pub best_from : ℕ → List ℕ → ℕ → ℕ → ℕ
best_from zero pm s best = best
best_from (suc n) pm s best =
    best_from n pm (s + 1) (if ltb (get_or pm s inf) (get_or pm best inf) then s else best)

-- The inputs are written from the last step to the first.
pub trace_back : ℕ → List (List ℕ) → List ℕ → List ℕ
trace_back s [] inputs = inputs
trace_back s (row ∷ hist) inputs =
    trace_back (get_or row s 0) hist (u8 (bit_and (s / 2 ^ 5) 1) ∷ inputs)

-- The exceptions that leave `fec_decode`: its own, and that of `resize` when `n_steps - 6` wraps.
pub data Decoded : Type 0 where
  ok : List ℕ → Decoded
  invalid_argument length_error : Decoded

pub start_metrics : List ℕ
start_metrics = 0 ∷ replicate 63 inf

pub survivor : List Pair → List ℕ
unfolding start_metrics forward best_from trace_back
survivor rs =
    let (pm, hist) = forward rs start_metrics [] in trace_back (best_from 63 pm 1 0) hist []

unfoldable pub fec_decode : List ℕ → Option (List ℕ) → Decoded
unfolding survivor
fec_decode coded soft =
    let n_steps = length coded / 2 in
    if not (length coded % 2 == 0) || (length coded == 0)
    then invalid_argument
    else if ltb n_steps 6
    then length_error
    else ok (take (n_steps - 6) (survivor (pairs_from soft 0 coded)))
