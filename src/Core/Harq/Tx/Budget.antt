-- ===== src/Core/Harq/Tx/Budget.antt =====
-- How often a transport block is repeated.
use aether_stack.Base.{
  IsBytes, ℕ, zero, suc, ◌+◌, ◌-◌, ◌*◌, ◌<◌, ◌≤◌, ◌≡◌, refl, ap, List, [], ◌∷◌, ◌++◌, Option, none,
  some, true, length, get_or, set, map, leb, if◌then◌else◌, arith, Bool-cases, inl, inr, replicate,
  max, bit_xor,
}
use aether_stack.Core.Harq.Link.{link_encode_returns}
use aether_stack.Core.Harq.Tx.{
  loaded, Config, Proc, HarqTx, Kind, new_tx, retx_tx, Event, fresh_proc, proc_at, find_free,
  started, start_at, send, advance, poll_timeouts, on_ack, on_nack, idle_proc, reset, Call, sends,
  advances, polls, acks, nacks, resets, after_send, with_event, step, run, init,
}
use aether_stack.Core.Harq.Tx.Outcomes.{
  IsSendable, AllSendable, given_up, repeated, Retx, idle, gives_up, repeats_block, retx-Retx,
  poll_loop_rule,
}

-- The repetitions that the blocks in flight have left.
abbrev credit : ℕ → Proc → ℕ
credit m pr = if pr.busy then m - pr.retx_count else 0

abbrev credits : ℕ → List Proc → ℕ
credits m [] = 0
credits m (pr ∷ prs) = credit m pr + credits m prs

abbrev count : (Event → ℕ) → List Event → ℕ
count f [] = 0
count f (e ∷ es) = f e + count f es

abbrev repeats_of : Kind → ℕ
repeats_of new_tx = 0
repeats_of retx_tx = 1

-- The events of a list that repeat a block, and those that send a new one.
abbrev pub repeats : List Event → ℕ
repeats = count λ e. repeats_of e.kind

abbrev pub new_blocks : List Event → ℕ
new_blocks = count λ e. 1 - repeats_of e.kind

credits-set :
    (m : ℕ) (prs : List Proc) (i : ℕ) (q : Proc)
    → credits m (set prs i q) + credit m (get_or prs i fresh_proc) ≤ credits m prs + credit m q
credits-set m [] i q = omega arith
credits-set m (pr ∷ prs) zero q = omega arith
credits-set m (pr ∷ prs) (suc i) q = omega (arith, credits-set m prs i q)

count-append : (f : Event → ℕ) (es fs : List Event) → count f (es ++ fs) ≡ count f es + count f fs
count-append f [] fs = omega arith
count-append f (e ∷ es) fs = omega (arith, count-append f es fs)

credit-busy : (m : ℕ) (pr : Proc) → pr.busy ≡ true → credit m pr ≡ m - pr.retx_count
credit-busy m pr e = rw e

module _ (c : Config) (small : c.max_retx < 256) where
  abbrev m : ℕ
  m = c.max_retx

  -- A call pays for its repetitions by credits, and a new block brings `max_retx` of them.
  abbrev Pays : HarqTx → HarqTx × List Event → Type 0
  Pays s r =
      s.cfg ≡ c
      → (repeats r.1 + credits m r.0.procs ≤ credits m s.procs + m * new_blocks r.1) × (r.0.cfg ≡ c)

  chain :
      (s t u : HarqTx) (es fs : List Event) → Pays s (t, es) → Pays t (u, fs) → Pays s (u, es ++ fs)
  chain s t u es fs h k e =
      let a = h e in
      let b = k a.1 in
      (
        omega (
          arith,
          a.0,
          b.0,
          count-append (λ x. repeats_of x.kind) es fs,
          ap (λ (n : ℕ). m * n) (count-append (λ x. 1 - repeats_of x.kind) es fs),
        ),
        b.1,
      )

  Retx-Pays : (s : HarqTx) (p : ℕ) {r : HarqTx × Option Event} → Retx s p r → Pays s (with_event r)
  Retx-Pays s p (idle free) e = (omega arith, e)
  Retx-Pays s p (gives_up busy spent) e =
      (omega (arith, credits-set m s.procs p (given_up (proc_at s p))), e)
  Retx-Pays s p (repeats_block busy left) e = (
    omega (
      arith,
      credits-set m s.procs p (repeated s (proc_at s p)),
      credit-busy m (proc_at s p) busy,
      credit-busy m (repeated s (proc_at s p)) busy,
      ap (λ (g : Config). g.max_retx) e,
    ),
    e,
  )

  poll-Pays : (s : HarqTx) (now : ℕ) → Pays s (poll_timeouts s now)
  unfolding poll_timeouts advance
  poll-Pays s now =
      poll_loop_rule Pays (λ t e. (omega arith, e)) chain (λ t p. Retx-Pays t p (retx-Retx t p))
        (length s.procs) 0 now (record s { last_now = max s.last_now now })

  started-Pays :
      (s : HarqTx) (p : ℕ) (mac_pdu coded : List ℕ)
      → Pays s (after_send s (started s p mac_pdu (some coded)))
  unfolding started
  started-Pays s p mac_pdu coded e =
      (omega (arith, credits-set m s.procs p (loaded s p mac_pdu coded)), e)

  start_at-Pays :
      (s : HarqTx) (mac_pdu : List ℕ) (o : Option ℕ)
      → IsBytes mac_pdu
      → Pays s (after_send s (start_at s mac_pdu o))
  unfolding start_at
  start_at-Pays s mac_pdu none h = λ e. (omega arith, e)
  start_at-Pays s mac_pdu (some p) h =
      let coded = link_encode_returns mac_pdu p (bit_xor (proc_at s p).ndi 1) h in
      rw coded.1 (started-Pays s p mac_pdu coded.0)

  on_nack-Pays : (s : HarqTx) (p : ℕ) → Pays s (with_event (on_nack s p))
  unfolding on_nack
  on_nack-Pays s p = elim (Bool-cases (leb (length s.procs) p)) [
    | inl out ↦ rw out (λ e. (omega arith, e))
    | inr inside ↦ rw inside (Retx-Pays s p (retx-Retx s p))
  ]

  on_ack-Pays : (s : HarqTx) (p : ℕ) → Pays s (on_ack s p, [])
  unfolding on_ack
  on_ack-Pays s p = elim (Bool-cases (leb (length s.procs) p)) [
    | inl out ↦ rw out (λ e. (omega arith, e))
    | inr inside ↦
        rw inside (λ e. (omega (arith, credits-set m s.procs p (given_up (proc_at s p))), e))
  ]

  credits-idle : (prs : List Proc) → credits m (map idle_proc prs) ≡ 0
  credits-idle [] = refl
  credits-idle (pr ∷ prs) = omega (arith, credits-idle prs)

  step-Pays : (s : HarqTx) (call : Call) → IsSendable call → Pays s (step s call)
  unfolding step send advance reset
  step-Pays s (sends mac_pdu) h = start_at-Pays s mac_pdu (find_free s.cfg.num_processes 0 s) h
  step-Pays s (advances now) h = λ e. (omega arith, e)
  step-Pays s (polls now) h = poll-Pays s now
  step-Pays s (acks p) h = on_ack-Pays s p
  step-Pays s (nacks p) h = on_nack-Pays s p
  step-Pays s resets h = λ e. (omega (arith, credits-idle s.procs), e)

  run-Pays : (s : HarqTx) (calls : List Call) → AllSendable calls → Pays s (run s calls)
  unfolding run
  run-Pays s [] h = λ e. (omega arith, e)
  run-Pays s (call ∷ calls) h =
      let (t, es) = step s call in
      let (u, fs) = run t calls in chain s t u es fs (step-Pays s call h.0) (run-Pays t calls h.1)

  credits-init : (n : ℕ) → credits m (replicate n fresh_proc) ≡ 0
  credits-init zero = refl
  credits-init (suc n) = omega (arith, credits-init n)

-- Over any history of calls from a new transmitter, ACKs, NACKs, timeouts and resets in any order,
-- the blocks are repeated at most `max_retx` times for each block that was sent.
-- (The blocks are of bytes, and the budget is below 256.)
pub repeats-run-le :
    (c : Config) (calls : List Call)
    → c.max_retx < 256
    → AllSendable calls
    → repeats (run (init c) calls).1 ≤ c.max_retx * new_blocks (run (init c) calls).1
unfolding init
repeats-run-le c calls small h =
    omega (arith, (run-Pays c small (init c) calls h refl).0, credits-init c small c.num_processes)
