-- ===== src/Phy/Fec/Viterbi/Select.antt =====
-- The add-compare-select step: every metric that it writes belongs to a branch into that state, and
-- no branch into a state is cheaper than the metric written there.
use aether_stack.Base.{
  ℕ, zero, suc, ◌+◌, ◌/◌, ◌%◌, ◌<◌, ◌≤◌, ◌≡◌, ◌≢◌, refl, subst, sym, ◌∙◌, List, true, false,
  Bool-cases, inl, inr, length, get_or, set, replicate, u8, ltb, leb, arith, length-set, ℕ_discrete,
  dec_lt, get_or-set_self, get_or-set_ne, get_or-replicate,
}
use native.Mathlib.Nat.{le_trans}
use aether_stack.Phy.Fec.Trellis.{next_state}
use aether_stack.Phy.Fec.Trellis.Tables.{lands}
use aether_stack.Phy.Fec.Viterbi.{
  inf, Pair, branch_cost, Survivors, relax, relax_state, relax_states, select,
}

module _ (r : Pair) (pm : List ℕ) where
  -- The branch that the survivors name for state `t`.
  pub record Chosen (v : Survivors) (t : ℕ) : Type 0 where
    pub prev_lt : get_or v.prev t 0 < 64
    pub reached : get_or pm (get_or v.prev t 0) inf < inf
    pub lands_at : next_state (get_or v.prev t 0) (t / 32 % 2) ≡ t
    pub cost_eq :
        get_or v.metric t inf
        ≡ get_or pm (get_or v.prev t 0) inf + branch_cost r (get_or v.prev t 0) (t / 32 % 2)

  pub record Sound (v : Survivors) : Type 0 where
    pub metrics : length v.metric ≡ 64
    pub prevs : length v.prev ≡ 64
    pub chosen : (t : ℕ) → t < 64 → get_or v.metric t inf < inf → Chosen v t

  abbrev cand : ℕ → ℕ → ℕ
  cand s input = get_or pm s inf + branch_cost r s input

  -- The survivors after a write at the branch's end.
  abbrev written : ℕ → ℕ → Survivors → Survivors
  written s input v = record {
    metric = set v.metric (next_state s input) (cand s input);
    prev = set v.prev (next_state s input) (u8 s);
  }

  module _ (s input : ℕ) (is_state : s < 64) (is_bit : input < 2) (v : Survivors) where
    same_branch :
        length v.metric ≡ 64
        → length v.prev ≡ 64
        → get_or pm s inf < inf
        → Chosen (written s input v) (next_state s input)
    same_branch m p reached =
        let a =
          get_or-set_self v.prev (next_state s input) (u8 s) 0
            (omega (arith, lands s input is_state is_bit)) in
        let b =
          get_or-set_self v.metric (next_state s input) (cand s input) inf
            (omega (arith, lands s input is_state is_bit)) in
        let e = small s is_state in
        record {
          prev_lt = rw (a, e) is_state;
          reached = rw (a, e) reached;
          lands_at = rw (a, e, (lands s input is_state is_bit).1) refl;
          cost_eq = rw (a, e, b, (lands s input is_state is_bit).1) refl;
        }
      where
        small : (n : ℕ) → n < 64 → u8 n ≡ n
        small n h = omega arith

    other_branch : (t : ℕ) → next_state s input ≢ t → Chosen v t → Chosen (written s input v) t
    other_branch t ne c =
        let a = get_or-set_ne v.prev (next_state s input) t (u8 s) 0 ne in
        let b = get_or-set_ne v.metric (next_state s input) t (cand s input) inf ne in
        record {
          prev_lt = rw a c.prev_lt;
          reached = rw a c.reached;
          lands_at = rw a c.lands_at;
          cost_eq = rw (a, b) c.cost_eq;
        }

    written-Sound : Sound v → get_or pm s inf < inf → Sound (written s input v)
    written-Sound h reached = record {
      metrics = length-set v.metric _ _ ∙ h.metrics;
      prevs = length-set v.prev _ _ ∙ h.prevs;
      chosen = λ t lt below. elim (ℕ_discrete (next_state s input) t) [
        | yes e ↦ subst (Chosen (written s input v)) e (same_branch h.metrics h.prevs reached)
        | no ne ↦ other_branch t ne (
            h.chosen t lt
              (rw (get_or-set_ne v.metric (next_state s input) t (cand s input) inf ne) at below))
      ];
    }

    relax-Sound : Sound v → get_or pm s inf < inf → Sound (relax r pm s v input)
    unfolding relax
    relax-Sound h reached =
        elim (Bool-cases (ltb (cand s input) (get_or v.metric (next_state s input) inf))) [
          | inl better ↦ rw better (written-Sound h reached)
          | inr worse ↦ rw worse h
        ]

    -- A relaxation lowers metrics only, and brings that of the branch's end to the candidate.
    relax-le :
        length v.metric ≡ 64
        → (t : ℕ) → get_or (relax r pm s v input).metric t inf ≤ get_or v.metric t inf
    unfolding relax
    relax-le m t = elim (ℕ_discrete (next_state s input) t) [
      | yes e ↦
          subst (λ x. get_or (relax r pm s v input).metric x inf ≤ get_or v.metric x inf) e
            (ground (
              arith,
              get_or-set_self v.metric (next_state s input) (cand s input) inf,
              lands s input is_state is_bit,
            ))
      | no ne ↦ ground (arith, get_or-set_ne v.metric (next_state s input) t (cand s input) inf ne)
    ]

    relax-cand :
        length v.metric ≡ 64
        → get_or (relax r pm s v input).metric (next_state s input) inf ≤ cand s input
    unfolding relax
    relax-cand m = ground (
      arith,
      get_or-set_self v.metric (next_state s input) (cand s input) inf,
      lands s input is_state is_bit,
    )

  -- No branch out of the first `n` states is cheaper than what stands at its end.
  abbrev pub Covers : Survivors → ℕ → Type 0
  Covers v n =
      (s input : ℕ)
      → s < n
      → input < 2
      → get_or pm s inf < inf
      → get_or v.metric (next_state s input) inf ≤ cand s input

  module _ (s : ℕ) (is_state : s < 64) (v : Survivors) where
    both : Survivors
    both = relax r pm s (relax r pm s v 0) 1

    both-Sound : Sound v → get_or pm s inf < inf → Sound both
    unfolding both
    both-Sound h reached =
        relax-Sound s 1 is_state (omega arith) (relax r pm s v 0)
          (relax-Sound s 0 is_state (omega arith) v h reached) reached

    both-le :
        Sound v → get_or pm s inf < inf → (t : ℕ) → get_or both.metric t inf ≤ get_or v.metric t inf
    unfolding both
    both-le h reached t =
        le_trans
          (relax-le s 1 is_state (omega arith) (relax r pm s v 0)
            (relax-Sound s 0 is_state (omega arith) v h reached).metrics t)
          (relax-le s 0 is_state (omega arith) v h.metrics t)

    both-cand :
        Sound v
        → get_or pm s inf < inf
        → (input : ℕ) → input < 2
        → get_or both.metric (next_state s input) inf ≤ cand s input
    unfolding both
    both-cand h reached zero bit =
        le_trans
          (relax-le s 1 is_state (omega arith) (relax r pm s v 0)
            (relax-Sound s 0 is_state (omega arith) v h reached).metrics (next_state s 0))
          (relax-cand s 0 is_state (omega arith) v h.metrics)
    both-cand h reached (suc zero) bit =
        relax-cand s 1 is_state (omega arith) (relax r pm s v 0)
          (relax-Sound s 0 is_state (omega arith) v h reached).metrics
    both-cand h reached (suc (suc n)) bit = absurd (omega arith)

    both-Covers : Sound v → get_or pm s inf < inf → Covers v s → Covers both (suc s)
    both-Covers h reached c s' input lt bit ok = elim (ℕ_discrete s s') [
      | yes e ↦
          subst (λ x. get_or both.metric (next_state x input) inf ≤ cand x input) e
            (both-cand h reached input bit)
      | no ne ↦ le_trans (both-le h reached (next_state s' input)) (c s' input (omega arith) bit ok)
    ]

    relax_state_lem :
        Sound v → Covers v s → Sound (relax_state r pm s v) × Covers (relax_state r pm s v) (suc s)
    unfolding relax_state
    relax_state_lem h c = elim (dec_lt (get_or pm s inf) inf) [
      | yes reached ↦
          rw (lt→not-leb (get_or pm s inf) reached)
            (unfold both in both-Sound h reached, unfold both in both-Covers h reached c)
      | no closed ↦ rw (not-lt→leb (get_or pm s inf) closed) (
        h,
        λ s' input lt bit ok. elim (ℕ_discrete s s') [
          | yes e ↦ absurd (closed (subst (λ x. get_or pm x inf < inf) (sym e) ok))
          | no ne ↦ c s' input (omega arith) bit ok
        ],
      )
    ]
      where
        lt→not-leb : (n : ℕ) → n < inf → leb inf n ≡ false
        lt→not-leb n h = ground arith

        not-lt→leb : (n : ℕ) → ¬ (n < inf) → leb inf n ≡ true
        not-lt→leb n h = ground arith

  relax_states_lem :
      (n s : ℕ) (v : Survivors)
      → s + n ≤ 64
      → Sound v
      → Covers v s
      → Sound (relax_states n r pm s v) × Covers (relax_states n r pm s v) (s + n)
  unfolding relax_states
  relax_states_lem zero s v le h c = (h, subst (Covers v) (omega arith) c)
  relax_states_lem (suc n) s v le h c =
      let one = relax_state_lem s (omega arith) v h c in
      let rest =
        relax_states_lem n (s + 1) (relax_state r pm s v) (omega arith) one.0
          (subst (Covers (relax_state r pm s v)) (omega arith) one.1) in
      (
        rest.0,
        subst (Covers (relax_states n r pm (s + 1) (relax_state r pm s v))) (omega arith) rest.1,
      )

  -- The whole step.
  pub select_lem : Sound (select r pm) × Covers (select r pm) 64
  unfolding select
  select_lem = relax_states_lem 64 0 _ (omega arith) empty nothing
    where
      start : Survivors
      start = record { metric = replicate 64 inf; prev = replicate 64 0 }

      empty : Sound start
      empty = record {
        metrics = refl;
        prevs = refl;
        chosen = λ t lt below. absurd (omega (arith, get_or-replicate 64 t inf));
      }

      nothing : Covers start 0
      nothing = λ s input lt bit ok. absurd (omega arith)
