-- ===== src/Phy/Fec/Viterbi/Distance.antt =====
-- The decoder against the encoder: the survivor is a most likely input sequence, measured by the
-- distance of the received pairs from what `fec_encode`'s loop puts out for it.
use native.Mathlib.Nat.{le_trans, le_refl}
use Prim.Native.Nat.{bit_xor-bitwise}
use aether_stack.Base.{
  onto, onto-onto, length-onto, AllBits, append-nil, ℕ, zero, suc, ◌+◌, ◌*◌, ◌/◌, ◌<◌, ◌≤◌, ◌≡◌,
  sym, ap, ap₂, ◌∙◌, List, [], ◌∷◌, arith, length, get_or, bit_and, bit_xor, ◌==◌, if◌then◌else◌,
  ℕ_discrete,
}
use aether_stack.Base.Bits.{bit_xor_cancel}
use aether_stack.Phy.Fec.Trellis.{output, emit_all}
use aether_stack.Phy.Fec.Viterbi.{
  inf, Pair, branch_cost, forward, start_metrics, best_from, survivor,
}
use aether_stack.Phy.Fec.Viterbi.Optimal.{
  AllLight, end_state, path_cost, inputs_of, Inv, start-Inv, forward-Inv, Best, best_from-Best,
  trace_back-inputs_of, path_cost-le, end_state-lt, Traced,
}

abbrev pub mismatch : ℕ → ℕ → ℕ → ℕ
mismatch received sent weight = if received == sent then 0 else weight

-- The weighted Hamming distance of received pairs from a sequence of coded bits.
abbrev pub distance : List Pair → List ℕ → ℕ
distance [] coded = 0
distance (r ∷ rs) [] = 0
distance (r ∷ rs) (c ∷ []) = 0
distance (r ∷ rs) (c0 ∷ c1 ∷ coded) =
    mismatch r.r0 c0 r.w0 + mismatch r.r1 c1 r.w1 + distance rs coded

-- The coded bits of an input sequence, from the zero state.
abbrev pub codeword : List ℕ → List ℕ
codeword is = (emit_all 0 is).0

xor_eq : (a b : ℕ) → bit_xor a b ≡ 0 → a ≡ b
xor_eq a b e = sym (bit_xor_cancel a b) ∙ ap (λ x. bit_xor x b) e ∙ bit_xor-bitwise 0 b

xor_self : (a : ℕ) → bit_xor a a ≡ 0
xor_self a = ap (λ x. bit_xor x a) (sym (bit_xor-bitwise 0 a)) ∙ bit_xor_cancel 0 a

xor-mismatch : (a b w : ℕ) → (if bit_xor a b == 0 then 0 else w) ≡ mismatch a b w
xor-mismatch a b w = elim (ℕ_discrete a b) [
  | yes e ↦ rw e (rw (xor_self b) (ground arith))
  | no ne ↦ ground (arith, xor_eq a b)
]

branch-mismatch :
    (r : Pair) (s i : ℕ)
    → branch_cost r s i
      ≡ mismatch r.r0 (output s i / 2) r.w0 + mismatch r.r1 (bit_and (output s i) 1) r.w1
unfolding branch_cost
branch-mismatch r s i =
    ap₂ ◌+◌ (xor-mismatch r.r0 (output s i / 2) r.w0)
      (xor-mismatch r.r1 (bit_and (output s i) 1) r.w1)

path_cost-onto :
    (rs done : List Pair) (is before : List ℕ)
    → length is ≡ length rs
    → path_cost (onto rs done) (onto is before)
      ≡ path_cost done before + distance rs (emit_all (end_state before) is).0
unfolding emit_all
path_cost-onto [] done [] before e = omega arith
path_cost-onto [] done (i ∷ is) before e = absurd (omega arith)
path_cost-onto (r ∷ rs) done [] before e = absurd (omega arith)
path_cost-onto (r ∷ rs) done (i ∷ is) before e = omega (
  arith,
  path_cost-onto rs (r ∷ done) is (i ∷ before) (omega arith),
  branch-mismatch r (end_state before) i,
)

onto-AllBits : (xs ys : List ℕ) → AllBits xs → AllBits ys → AllBits (onto xs ys)
onto-AllBits [] ys h k = k
onto-AllBits (x ∷ xs) ys h k = onto-AllBits xs (x ∷ ys) h.1 (h.0, k)

onto-AllLight : (rs done : List Pair) → AllLight rs → AllLight done → AllLight (onto rs done)
onto-AllLight [] done h k = k
onto-AllLight (r ∷ rs) done h k = onto-AllLight rs (r ∷ done) h.2 (h.0, h.1, k)

module _ (rs : List Pair) (light : AllLight rs) (few : 2 * length rs < inf) where
  pm : List ℕ
  pm = (forward rs start_metrics []).0

  hist : List (List ℕ)
  hist = (forward rs start_metrics []).1

  final-Inv : Inv (onto rs []) pm hist
  unfolding pm hist
  final-Inv = forward-Inv rs [] start_metrics [] light tt (omega arith) start-Inv

  best : ℕ
  best = best_from 63 pm 1 0

  best-Best : Best pm best 64
  unfolding best
  best-Best = best_from-Best 63 pm 1 0 (omega arith) (omega arith, first)
    where
      first : (t : ℕ) → t < 1 → get_or pm 0 inf ≤ get_or pm t inf
      first zero h = le_refl _
      first (suc t) h = absurd (omega arith)

  newest_first : List ℕ
  newest_first = inputs_of best hist

  survivor-newest_first : survivor rs ≡ onto newest_first []
  unfolding survivor newest_first best pm hist
  survivor-newest_first = trace_back-inputs_of best hist []

  -- The metric of the best state is at most the distance of any other input sequence.
  best-le :
      (is : List ℕ)
      → AllBits is
      → length is ≡ length rs
      → get_or pm best inf ≤ distance rs (codeword is)
  best-le is h e =
      le_trans
        (best-Best.1 (end_state (onto is [])) (end_state-lt (onto is []) (onto-AllBits is [] h tt)))
        (le_trans
          (final-Inv.least (onto is []) (onto-AllBits is [] h tt)
            (length-onto is [] ∙ rw e (sym (length-onto rs []))))
          (rw (path_cost-onto rs [] is [] e) (omega arith)))

  -- The path that is traced back has the metric of its end for its cost.
  best-Traced : get_or pm best inf < inf → Traced (onto rs []) pm hist best
  best-Traced h = final-Inv.traced best best-Best.0 h

  module _ (is : List ℕ) (bits : AllBits is) (same : length is ≡ length rs) where
    reached : get_or pm best inf < inf
    reached = omega (
      arith,
      best-le is bits same,
      path_cost-onto rs [] is [] same,
      path_cost-le (onto rs []) (onto is []) (onto-AllLight rs [] light tt),
      length-onto rs [],
    )

    survivor-AllBits : AllBits (survivor rs)
    unfolding newest_first
    survivor-AllBits =
        rw survivor-newest_first (onto-AllBits newest_first [] (best-Traced reached).bits tt)

    length-survivor : length (survivor rs) ≡ length rs
    unfolding newest_first
    length-survivor =
        rw survivor-newest_first (
          omega
            (arith, length-onto newest_first [], (best-Traced reached).count, length-onto rs []))

    survivor-path : path_cost (onto rs []) (onto (survivor rs) []) ≡ get_or pm best inf
    unfolding newest_first
    survivor-path =
        rw (survivor-newest_first, onto-onto newest_first [] [])
          (ap (path_cost (onto rs [])) (append-nil newest_first) ∙ (best-Traced reached).cost)

    survivor-cost : distance rs (codeword (survivor rs)) ≡ get_or pm best inf
    survivor-cost =
        omega (arith, path_cost-onto rs [] (survivor rs) [] length-survivor, survivor-path)

    -- Of all input sequences, the survivor's coded bits are nearest to the received pairs.
    pub survivor_optimal :
        AllBits (survivor rs)
        × (length (survivor rs) ≡ length rs)
        × (distance rs (codeword (survivor rs)) ≤ distance rs (codeword is))
    survivor_optimal = (survivor-AllBits, length-survivor, rw survivor-cost (best-le is bits same))
