-- ===== src/Phy/Fec/Viterbi/Optimal.antt =====
-- Maximum likelihood: after any received pairs, the metric of a state is the least cost of the input
-- sequences that end in it, and the rows of predecessors spell out such a sequence. Sequences are
-- kept newest first here.
use native.Mathlib.Nat.{le_refl}
use aether_stack.Base.{
  onto, AllBits, Bool-cases, if◌then◌else◌, ℕ_discrete, tests, ℕ, zero, suc, ◌+◌, ◌*◌, ◌/◌, ◌%◌,
  ◌^◌, ◌<◌, ◌≤◌, ◌≡◌, refl, sym, subst, List, [], ◌∷◌, inl, inr, length, get_or, u8, ltb, arith,
  bit_and, get_or-replicate,
}
use aether_stack.Base.Bits.{bit_and_mask}
use aether_stack.Phy.Fec.Trellis.{next_state}
use aether_stack.Phy.Fec.Trellis.Tables.{lands}
use aether_stack.Phy.Fec.Viterbi.{
  inf, Pair, branch_cost, select, forward, start_metrics, best_from, trace_back,
}
use aether_stack.Phy.Fec.Viterbi.Select.{select_lem}

-- The state after inputs from the zero state.
abbrev pub end_state : List ℕ → ℕ
end_state [] = 0
end_state (i ∷ is) = next_state (end_state is) i

-- The weighted distance of the received pairs from what those inputs put out.
abbrev pub path_cost : List Pair → List ℕ → ℕ
path_cost [] is = 0
path_cost (r ∷ rs) [] = 0
path_cost (r ∷ rs) (i ∷ is) = path_cost rs is + branch_cost r (end_state is) i

-- Weights are 0 or 1.
abbrev pub AllLight : List Pair → Type 0
AllLight [] = Unit {0}
AllLight (r ∷ rs) = (r.w0 ≤ 1) × (r.w1 ≤ 1) × AllLight rs

abbrev pub inputs_of : ℕ → List (List ℕ) → List ℕ
inputs_of s [] = []
inputs_of s (row ∷ hist) = s / 32 % 2 ∷ inputs_of (get_or row s 0) hist

branch_cost-le : (r : Pair) (s i : ℕ) → r.w0 ≤ 1 → r.w1 ≤ 1 → branch_cost r s i ≤ 2
unfolding branch_cost
branch_cost-le r s i h k = ground arith

pub path_cost-le : (rs : List Pair) (is : List ℕ) → AllLight rs → path_cost rs is ≤ 2 * length rs
path_cost-le [] is h = omega arith
path_cost-le (r ∷ rs) [] h = omega arith
path_cost-le (r ∷ rs) (i ∷ is) h =
    omega (arith, path_cost-le rs is h.2, branch_cost-le r (end_state is) i h.0 h.1)

pub end_state-lt : (is : List ℕ) → AllBits is → end_state is < 64
end_state-lt [] h = omega arith
end_state-lt (i ∷ is) h = (lands (end_state is) i (end_state-lt is h.1) h.0).0

-- What the metrics and the rows say of the pairs received so far.
pub record Traced (rs : List Pair) (pm : List ℕ) (hist : List (List ℕ)) (s : ℕ) : Type 0 where
  pub bits : AllBits (inputs_of s hist)
  pub count : length (inputs_of s hist) ≡ length rs
  pub ends : end_state (inputs_of s hist) ≡ s
  pub cost : path_cost rs (inputs_of s hist) ≡ get_or pm s inf

pub record Inv (rs : List Pair) (pm : List ℕ) (hist : List (List ℕ)) : Type 0 where
  pub least :
      (is : List ℕ)
      → AllBits is
      → length is ≡ length rs
      → get_or pm (end_state is) inf ≤ path_cost rs is
  pub traced : (s : ℕ) → s < 64 → get_or pm s inf < inf → Traced rs pm hist s

module _ (rs : List Pair) (r : Pair) (pm : List ℕ) (hist : List (List ℕ)) (inv : Inv rs pm hist)
    (light : AllLight (r ∷ rs)) (few : 2 * length (r ∷ rs) < inf) where
  least_next :
      (is : List ℕ)
      → AllBits is
      → length is ≡ suc (length rs)
      → get_or (select r pm).metric (end_state is) inf ≤ path_cost (r ∷ rs) is
  least_next [] h e = absurd (omega arith)
  least_next (i ∷ is) h e =
      let before = inv.least is h.1 (omega arith) in
      let reached : get_or pm (end_state is) inf < inf =
        omega (arith, before, path_cost-le rs is light.2) in
      let branch = (select_lem r pm).1 (end_state is) i (end_state-lt is h.1) h.0 reached in
      omega (arith, before, branch)

  Traced-next :
      (t : ℕ)
      → t < 64
      → get_or (select r pm).metric t inf < inf
      → Traced (r ∷ rs) (select r pm).metric ((select r pm).prev ∷ hist) t
  Traced-next t lt below =
      let c = (select_lem r pm).0.chosen t lt below in
      let p = inv.traced (get_or (select r pm).prev t 0) c.prev_lt c.reached in
      record {
        bits = (omega arith, p.bits);
        count = omega (arith, p.count);
        ends = rw p.ends c.lands_at;
        cost = rw (p.ends, p.cost) (sym c.cost_eq);
      }

  select-Inv : Inv (r ∷ rs) (select r pm).metric ((select r pm).prev ∷ hist)
  select-Inv = record { least = least_next; traced = Traced-next }

pub start-Inv : Inv [] start_metrics []
unfolding start_metrics
start-Inv = record { least = least_start; traced = traced_start }
  where
    least_start :
        (is : List ℕ) → AllBits is → length is ≡ 0 → get_or start_metrics (end_state is) inf ≤ 0
    least_start [] h e = omega arith
    least_start (i ∷ is) h e = absurd (omega arith)

    traced_start :
        (s : ℕ) → s < 64 → get_or start_metrics s inf < inf → Traced [] start_metrics [] s
    traced_start zero lt below = record { bits = tt; count = refl; ends = refl; cost = refl }
    traced_start (suc s) lt below = absurd (omega (arith, get_or-replicate 63 s inf))

pub forward-Inv :
    (rs done : List Pair) (pm : List ℕ) (hist : List (List ℕ))
    → AllLight rs
    → AllLight done
    → 2 * (length rs + length done) < inf
    → Inv done pm hist
    → Inv (onto rs done) (forward rs pm hist).0 (forward rs pm hist).1
unfolding forward
forward-Inv [] done pm hist h k few inv = inv
forward-Inv (r ∷ rs) done pm hist h k few inv =
    forward-Inv rs (r ∷ done) (select r pm).metric ((select r pm).prev ∷ hist) h.2 (h.0, h.1, k)
      (omega arith) (select-Inv done r pm hist inv (h.0, h.1, k) (omega arith))

abbrev pub Best : List ℕ → ℕ → ℕ → Type 0
Best pm best n = (best < 64) × ((t : ℕ) → t < n → get_or pm best inf ≤ get_or pm t inf)

Best-step :
    (pm : List ℕ) (s best : ℕ)
    → s < 64
    → Best pm best s
    → Best pm (if ltb (get_or pm s inf) (get_or pm best inf) then s else best) (s + 1)
Best-step pm s best lt h = elim (Bool-cases (ltb (get_or pm s inf) (get_or pm best inf))) [
  | inl better ↦ rw better (
    lt,
    λ t below. elim (ℕ_discrete t s) [
      | yes e ↦ rw e (le_refl _)
      | no ne ↦ omega (tests, h.1 t (omega arith), better)
    ],
  )
  | inr worse ↦ rw worse (
    h.0,
    λ t below. elim (ℕ_discrete t s) [
      | yes e ↦ rw e (ground (arith, worse))
      | no ne ↦ h.1 t (omega arith)
    ],
  )
]

pub best_from-Best :
    (n : ℕ) (pm : List ℕ) (s best : ℕ)
    → s + n ≤ 64
    → Best pm best s
    → Best pm (best_from n pm s best) (s + n)
unfolding best_from
best_from-Best zero pm s best le h = subst (Best pm best) (omega arith) h
best_from-Best (suc n) pm s best le h =
    subst (Best pm (best_from (suc n) pm s best)) (omega arith)
      (best_from-Best n pm (s + 1) _ (omega arith) (Best-step pm s best (omega arith) h))

pub trace_back-inputs_of :
    (s : ℕ) (hist : List (List ℕ)) (inputs : List ℕ)
    → trace_back s hist inputs ≡ onto (inputs_of s hist) inputs
unfolding trace_back
trace_back-inputs_of s [] inputs = refl
trace_back-inputs_of s (row ∷ hist) inputs =
    rw (top_bit s) (trace_back-inputs_of (get_or row s 0) hist (s / 32 % 2 ∷ inputs))
  where
    top_bit : (n : ℕ) → u8 (bit_and (n / 2 ^ 5) 1) ≡ n / 32 % 2
    top_bit n = omega (arith, bit_and_mask 1 (n / 2 ^ 5))
