-- ===== src/Mac/Rach/Bs/Grants.antt =====
-- The C-RNTIs that a base station grants.
use aether_stack.Base.{
  ℕ, zero, suc, ◌+◌, ◌*◌, ◌/◌, ◌%◌, ◌^◌, ◌≤◌, ◌<◌, ◌≡◌, ◌≢◌, refl, sym, ap, ◌∙◌, List, [], ◌∷◌,
  ◌++◌, ◌==◌, ltb, length, get_or, bit_and, u8, u16, arith, Bool-cases, Option-cases, inl, inr,
  append_assoc,
}
use aether_stack.Base.Bits.{bit_and_mask}
use aether_stack.Mac.Rach.{
  msg1_prach, msg2_rar, msg3_rrc_req, msg4_contention_resolve, cell_for_preamble, Output, sends,
  moves, hands_ccch,
}
use aether_stack.Mac.Rach.Bs.{
  RachBs, find_context, on_prach_received, on_msg3_received, ccch_output, Heard, prach, msg3, step,
  run,
}

-- The C-RNTIs in the MSG4s, little endian after the type.
abbrev pub granted_by : List ℕ → List ℕ
granted_by [] = []
granted_by (t ∷ []) = []
granted_by (t ∷ lo ∷ []) = []
granted_by (t ∷ lo ∷ hi ∷ rest) = (lo + hi * 2 ^ 8) ∷ []

abbrev pub grants : List Output → List ℕ
grants [] = []
grants (sends msg4_contention_resolve bytes ∷ os) = granted_by bytes ++ grants os
grants (sends msg1_prach bytes ∷ os) = grants os
grants (sends msg2_rar bytes ∷ os) = grants os
grants (sends msg3_rrc_req bytes ∷ os) = grants os
grants (moves old new ∷ os) = grants os
grants (hands_ccch crnti bytes ∷ os) = grants os

-- `k` values from `n` on, of 16 bits.
unfoldable consecutive : ℕ → ℕ → List ℕ
consecutive n zero = []
consecutive n (suc k) = n ∷ consecutive (u16 (n + 1)) k

consecutive-suc : (n k : ℕ) → consecutive n (suc k) ≡ n ∷ consecutive (u16 (n + 1)) k
unfolding consecutive
consecutive-suc n k = refl

-- A step grants nothing or the next value.
record Next (s : RachBs) (r : RachBs × List Output) : Type 0 where
  count : ℕ
  listed : grants r.1 ≡ consecutive s.next_crnti count
  follows :
      (more : ℕ)
      → consecutive s.next_crnti (count + more) ≡ grants r.1 ++ consecutive r.0.next_crnti more
  small : r.0.next_crnti < 65536

unchanged :
    (s : RachBs) (t : RachBs) (os : List Output)
    → s.next_crnti < 65536
    → t.next_crnti ≡ s.next_crnti
    → grants os ≡ []
    → Next s (t, os)
unfolding consecutive
unchanged s t os small e g = record {
  count = 0;
  listed = g;
  follows = λ more. rw (g, e) (ap (consecutive s.next_crnti) (omega arith));
  small = rw e small;
}

crnti_bytes : (c : ℕ) → c < 65536 → u8 (bit_and c 0xff) + u8 (bit_and (c / 2 ^ 8) 0xff) * 2 ^ 8 ≡ c
crnti_bytes c h = omega (arith, bit_and_mask 8 c, bit_and_mask 8 (c / 2 ^ 8))

grants-ccch_output : (c : ℕ) (d : List ℕ) → grants (ccch_output c d) ≡ []
grants-ccch_output c d = elim (Bool-cases (ltb 3 (length d))) [
  | inl long ↦ rw long refl
  | inr short ↦ rw short refl
]

step-Next : (s : RachBs) (h : Heard) → s.next_crnti < 65536 → Next s (step s h)
unfolding step on_prach_received on_msg3_received
step-Next s (prach p) small = elim (Bool-cases (cell_for_preamble p == s.cell_id)) [
  | inl own ↦ rw own (unchanged s _ _ small refl refl)
  | inr foreign ↦ rw foreign (unchanged s s [] small refl refl)
]
step-Next s (msg3 r d) small = elim (Option-cases (find_context s.ue_contexts r)) [
  | inl unknown ↦ rw unknown (unchanged s s [] small refl refl)
  | inr (ctx, known) ↦
      let one = crnti_bytes s.next_crnti small in
      let none_more = grants-ccch_output s.next_crnti d in
      rw known (record {
        count = 1;
        listed = rw (one, none_more) (unfold consecutive in refl);
        follows = λ more. rw (one, none_more) (one_more more);
        small = omega arith;
      })
]
  where
    one_more :
        (more : ℕ)
        → consecutive s.next_crnti (1 + more)
          ≡ s.next_crnti ∷ consecutive (u16 (s.next_crnti + 1)) more
    one_more more =
        let next : 1 + more ≡ suc more = omega arith in rw next (consecutive-suc s.next_crnti more)

grants-append : (os ps : List Output) → grants (os ++ ps) ≡ grants os ++ grants ps
grants-append [] ps = refl
grants-append (sends msg4_contention_resolve bytes ∷ os) ps =
    rw (grants-append os ps) (sym (append_assoc (granted_by bytes) (grants os) (grants ps)))
grants-append (sends msg1_prach bytes ∷ os) ps = grants-append os ps
grants-append (sends msg2_rar bytes ∷ os) ps = grants-append os ps
grants-append (sends msg3_rrc_req bytes ∷ os) ps = grants-append os ps
grants-append (moves old new ∷ os) ps = grants-append os ps
grants-append (hands_ccch crnti bytes ∷ os) ps = grants-append os ps

grants-run :
    (s : RachBs) (hs : List Heard)
    → s.next_crnti < 65536
    → (k : ℕ) × (grants (run s hs).1 ≡ consecutive s.next_crnti k)
unfolding run
grants-run s [] small = (0, unfold consecutive in refl)
grants-run s (h ∷ hs) small =
    let n = step-Next s h small in
    let rest = grants-run (step s h).0 hs n.small in
    (
      n.count + rest.0,
      grants-append (step s h).1 (run (step s h).0 hs).1
          ∙ ap (λ l. grants (step s h).1 ++ l) rest.1
          ∙ sym (n.follows rest.0),
    )

length-consecutive : (n k : ℕ) → length (consecutive n k) ≡ k
unfolding consecutive
length-consecutive n zero = refl
length-consecutive n (suc k) = omega (arith, length-consecutive (u16 (n + 1)) k)

get_or-consecutive :
    (n k i : ℕ) → n < 65536 → i < k → get_or (consecutive n k) i 0 ≡ (n + i) % 65536
unfolding consecutive
get_or-consecutive n zero i h l = absurd (omega arith)
get_or-consecutive n (suc k) zero h l = omega arith
get_or-consecutive n (suc k) (suc i) h l =
    omega (arith, get_or-consecutive (u16 (n + 1)) k i (omega arith) (omega arith))

-- No two MSG4s grant the same C-RNTI, as long as no more than 65536 are granted.
-- (The first value to be granted fits 16 bits.)
pub grants-run_distinct :
    (s : RachBs) (hs : List Heard) (i j : ℕ)
    → s.next_crnti < 65536
    → length (grants (run s hs).1) ≤ 65536
    → i < j
    → j < length (grants (run s hs).1)
    → get_or (grants (run s hs).1) i 0 ≢ get_or (grants (run s hs).1) j 0
grants-run_distinct s hs i j small few lt inside =
    let g = grants-run s hs small in
    let size : length (grants (run s hs).1) ≡ g.0 =
      ap length g.1 ∙ length-consecutive s.next_crnti g.0 in
    let at_i = get_or-consecutive s.next_crnti g.0 i small (omega (arith, size)) in
    let at_j = get_or-consecutive s.next_crnti g.0 j small (omega (arith, size)) in
    rw (g.1, at_i, at_j) (λ e. omega (arith, e, size))
