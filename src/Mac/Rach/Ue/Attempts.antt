-- ===== src/Mac/Rach/Ue/Attempts.antt =====
-- How often a terminal sends its preamble.
use aether_stack.Base.{
  ℕ, suc, ◌+◌, ◌-◌, ◌*◌, ◌≤◌, ◌<◌, ◌≡◌, refl, max, List, [], ◌∷◌, ◌++◌, Option, leb, ◌==◌, u8,
  arith, Bool-cases, inl, inr, subst,
}
use aether_stack.Mac.Rach.{
  ra_rnti_for_preamble, msg1_prach, msg2_rar, msg3_rrc_req, msg4_contention_resolve, RachState,
  idle, wait_rar, wait_contention_resolve, connected, Output, sends, moves, hands_ccch,
}
use aether_stack.Mac.Rach.Ue.{
  RachUe, start_rach, set_preamble_index, on_rar_received, on_contention_resolve, on_rar_timeout,
  on_contention_resolve_timeout, force_idle, Call, starts, rar_times_out, resolve_times_out,
  forces_idle, retargets, hears_rar, hears_resolve, step, run,
}

abbrev pub msg1s : List Output → ℕ
msg1s [] = 0
msg1s (sends msg1_prach bytes ∷ os) = suc (msg1s os)
msg1s (sends msg2_rar bytes ∷ os) = msg1s os
msg1s (sends msg3_rrc_req bytes ∷ os) = msg1s os
msg1s (sends msg4_contention_resolve bytes ∷ os) = msg1s os
msg1s (moves old new ∷ os) = msg1s os
msg1s (hands_ccch crnti bytes ∷ os) = msg1s os

abbrev pub starts_of : List Call → ℕ
starts_of [] = 0
starts_of (starts ∷ cs) = suc (starts_of cs)
starts_of (rar_times_out ∷ cs) = starts_of cs
starts_of (resolve_times_out ∷ cs) = starts_of cs
starts_of (forces_idle ∷ cs) = starts_of cs
starts_of (retargets i ∷ cs) = starts_of cs
starts_of (hears_rar r p ∷ cs) = starts_of cs
starts_of (hears_resolve c r ∷ cs) = starts_of cs

-- The preambles of one procedure: the first is sent even when none is allowed.
abbrev pub limit : RachUe → ℕ
limit u = max u.max_preamble_transmissions 1

-- What the procedure under way may still send.
abbrev due : RachUe → RachState → ℕ
due u wait_rar = limit u - u.preamble_tx_count
due u idle = 0
due u wait_contention_resolve = 0
due u connected = 0

record Kept (u : RachUe) (r : RachUe × List Output) (n : ℕ) : Type 0 where
  budget : msg1s r.1 + due r.0 r.0.state ≤ due u u.state + n
  bounded : r.0.preamble_tx_count ≤ limit u
  same : r.0.max_preamble_transmissions ≡ u.max_preamble_transmissions

abbrev Fit : RachUe → Type 0
Fit u = (u.preamble_tx_count ≤ limit u) × (limit u < 255)

still : (u : RachUe) (n : ℕ) → Fit u → Kept u (u, []) n
still u n f = record { budget = omega arith; bounded = f.0; same = refl }

start_rach-Kept :
    (u : RachUe) (st : RachState) → u.state ≡ st → Fit u → Kept u (start_rach u) (limit u)
unfolding start_rach
start_rach-Kept u idle e f =
    rw e (record { budget = omega arith; bounded = omega arith; same = refl })
start_rach-Kept u wait_rar e f = simp e (still u (limit u) f)
start_rach-Kept u wait_contention_resolve e f = simp e (still u (limit u) f)
start_rach-Kept u connected e f = simp e (still u (limit u) f)

on_rar_timeout-Kept :
    (u : RachUe) (st : RachState) → u.state ≡ st → Fit u → Kept u (on_rar_timeout u) 0
unfolding on_rar_timeout
on_rar_timeout-Kept u wait_rar e f =
    elim (Bool-cases (leb (u8 (u.preamble_tx_count + 1)) u.max_preamble_transmissions)) [
      | inl again ↦
          rw (e, again)
            (record {
              budget = ground (arith, again, f.0, f.1);
              bounded = ground (arith, again);
              same = refl;
            })
      | inr over ↦
          rw (e, over) (record { budget = omega arith; bounded = omega arith; same = refl })
    ]
on_rar_timeout-Kept u idle e f = simp e (still u 0 f)
on_rar_timeout-Kept u wait_contention_resolve e f = simp e (still u 0 f)
on_rar_timeout-Kept u connected e f = simp e (still u 0 f)

on_rar_received-Kept :
    (u : RachUe) (st : RachState) (r : ℕ) (p : Option (List ℕ))
    → u.state ≡ st
    → Fit u
    → Kept u (on_rar_received u r p) 0
unfolding on_rar_received
on_rar_received-Kept u wait_rar r p e f =
    elim (Bool-cases (r == ra_rnti_for_preamble u.preamble_index)) [
      | inl own ↦ rw (e, own) (record { budget = omega arith; bounded = f.0; same = refl })
      | inr other ↦ simp (e, other) (still u 0 f)
    ]
on_rar_received-Kept u idle r p e f = simp e (still u 0 f)
on_rar_received-Kept u wait_contention_resolve r p e f = simp e (still u 0 f)
on_rar_received-Kept u connected r p e f = simp e (still u 0 f)

on_contention_resolve-Kept :
    (u : RachUe) (st : RachState) (c r : ℕ)
    → u.state ≡ st
    → Fit u
    → Kept u (on_contention_resolve u c r) 0
unfolding on_contention_resolve
on_contention_resolve-Kept u wait_contention_resolve c r e f =
    elim (Bool-cases (r == u.assigned_ra_rnti)) [
      | inl own ↦ rw (e, own) (record { budget = omega arith; bounded = f.0; same = refl })
      | inr other ↦ simp (e, other) (still u 0 f)
    ]
on_contention_resolve-Kept u idle c r e f = simp e (still u 0 f)
on_contention_resolve-Kept u wait_rar c r e f = simp e (still u 0 f)
on_contention_resolve-Kept u connected c r e f = simp e (still u 0 f)

on_contention_resolve_timeout-Kept :
    (u : RachUe) (st : RachState)
    → u.state ≡ st
    → Fit u
    → Kept u (on_contention_resolve_timeout u) 0
unfolding on_contention_resolve_timeout
on_contention_resolve_timeout-Kept u wait_contention_resolve e f =
    rw e (record { budget = omega arith; bounded = f.0; same = refl })
on_contention_resolve_timeout-Kept u idle e f = simp e (still u 0 f)
on_contention_resolve_timeout-Kept u wait_rar e f = simp e (still u 0 f)
on_contention_resolve_timeout-Kept u connected e f = simp e (still u 0 f)

force_idle-Kept : (u : RachUe) (st : RachState) → u.state ≡ st → Fit u → Kept u (force_idle u) 0
unfolding force_idle
force_idle-Kept u idle e f = simp e (still u 0 f)
force_idle-Kept u wait_rar e f = rw e (record { budget = omega arith; bounded = f.0; same = refl })
force_idle-Kept u wait_contention_resolve e f =
    rw e (record { budget = omega arith; bounded = f.0; same = refl })
force_idle-Kept u connected e f = rw e (record { budget = omega arith; bounded = f.0; same = refl })

step-Kept : (u : RachUe) (c : Call) → Fit u → Kept u (step u c) (limit u * starts_of (c ∷ []))
unfolding step
step-Kept u starts f =
    subst (Kept u (start_rach u)) (omega arith) (start_rach-Kept u u.state refl f)
step-Kept u rar_times_out f =
    subst (Kept u (on_rar_timeout u)) (omega arith) (on_rar_timeout-Kept u u.state refl f)
step-Kept u resolve_times_out f =
    subst (Kept u (on_contention_resolve_timeout u)) (omega arith)
      (on_contention_resolve_timeout-Kept u u.state refl f)
step-Kept u forces_idle f =
    subst (Kept u (force_idle u)) (omega arith) (force_idle-Kept u u.state refl f)
step-Kept u (retargets i) f =
    unfold set_preamble_index in record { budget = omega arith; bounded = f.0; same = refl }
step-Kept u (hears_rar r p) f =
    subst (Kept u (on_rar_received u r p)) (omega arith) (on_rar_received-Kept u u.state r p refl f)
step-Kept u (hears_resolve c r) f =
    subst (Kept u (on_contention_resolve u c r)) (omega arith)
      (on_contention_resolve-Kept u u.state c r refl f)

msg1s-append : (os ps : List Output) → msg1s (os ++ ps) ≡ msg1s os + msg1s ps
msg1s-append [] ps = omega arith
msg1s-append (sends msg1_prach bytes ∷ os) ps = omega (arith, msg1s-append os ps)
msg1s-append (sends msg2_rar bytes ∷ os) ps = msg1s-append os ps
msg1s-append (sends msg3_rrc_req bytes ∷ os) ps = msg1s-append os ps
msg1s-append (sends msg4_contention_resolve bytes ∷ os) ps = msg1s-append os ps
msg1s-append (moves old new ∷ os) ps = msg1s-append os ps
msg1s-append (hands_ccch crnti bytes ∷ os) ps = msg1s-append os ps

starts_of-cons :
    (c : Call) (cs : List Call) → starts_of (c ∷ cs) ≡ starts_of (c ∷ []) + starts_of cs
starts_of-cons starts cs = omega arith
starts_of-cons rar_times_out cs = omega arith
starts_of-cons resolve_times_out cs = omega arith
starts_of-cons forces_idle cs = omega arith
starts_of-cons (retargets i) cs = omega arith
starts_of-cons (hears_rar r p) cs = omega arith
starts_of-cons (hears_resolve c r) cs = omega arith

-- Over any calls, what is sent is paid for by what was due and by the procedures started.
budget_of :
    (u : RachUe) (cs : List Call)
    → Fit u
    → msg1s (run u cs).1 ≤ due u u.state + limit u * starts_of cs
unfolding run
budget_of u [] f = omega arith
budget_of u (c ∷ cs) f =
    let k = step-Kept u c f in
    let fit : Fit (step u c).0 = (rw k.same k.bounded, rw k.same f.1) in
    let rest = budget_of (step u c).0 cs fit in
    let first = k.budget in
    let same : limit (step u c).0 ≡ limit u = rw k.same refl in
    let rest' : msg1s (run (step u c).0 cs).1
        ≤ due (step u c).0 (step u c).0.state + limit u * starts_of cs =
      subst
        (λ l.
          msg1s (run (step u c).0 cs).1 ≤ due (step u c).0 (step u c).0.state + l * starts_of cs)
        same rest in
    rw
      (
        msg1s-append (step u c).1 (run (step u c).0 cs).1,
        starts_of-cons c cs,
        mul-add (limit u) (starts_of (c ∷ [])) (starts_of cs),
      )
      (omega (arith, first, rest'))
  where
    mul-add : (a b c : ℕ) → a * (b + c) ≡ a * b + a * c
    mul-add a b c = ground arith

-- A terminal that starts idle sends at most `max_preamble_transmissions` preambles, and at least one
-- is allowed, for each procedure it is asked to start, whatever it hears and whichever timers expire.
-- (Its count is 0 at the start, and the limit is below 255.)
pub msg1s-run :
    (u : RachUe) (cs : List Call)
    → u.state ≡ idle
    → u.preamble_tx_count ≡ 0
    → u.max_preamble_transmissions < 255
    → msg1s (run u cs).1 ≤ max u.max_preamble_transmissions 1 * starts_of cs
msg1s-run u cs e n small =
    let paid : msg1s (run u cs).1 ≤ due u idle + limit u * starts_of cs =
      subst (λ st. msg1s (run u cs).1 ≤ due u st + limit u * starts_of cs) e
        (budget_of u cs (omega (arith, n), omega (arith, small))) in
    omega (arith, paid)
