-- ===== src/Core/Harq/Tx/Blocks.antt =====
-- What is repeated: the very frame that was sent for the block.
use aether_stack.Base.{
  IsBytes, set_outside, ℕ, zero, suc, ◌≡◌, ◌⊎◌, inl, inr, refl, sym, ap, ◌∙◌, subst, List, [], ◌∷◌,
  ◌++◌, Option, none, some, true, false, length, get_or, map, leb, arith, Bool-cases, max, bit_xor,
  onto, onto-append, ℕ_discrete, dec_lt, get_or-set_self, get_or-set_ne, get_or-replicate,
}
use aether_stack.Core.Harq.Tx.{
  Config, Proc, HarqTx, new_tx, retx_tx, Event, fresh_proc, proc_at, put_proc, find_free, loaded,
  started, start_at, send, advance, poll_timeouts, on_ack, on_nack, idle_proc, reset, Call, sends,
  advances, polls, acks, nacks, resets, after_send, with_event, step, run, init,
}
use aether_stack.Core.Harq.Link.{link_encode_returns}
use aether_stack.Core.Harq.Tx.Outcomes.{
  IsSendable, AllSendable, given_up, repeated, repeat_event, Retx, idle, gives_up, repeats_block,
  retx-Retx, poll_loop_rule,
}

abbrev pub Has : Event → List Event → Type 0
Has e [] = ⊥
Has e (x ∷ xs) = (x ≡ e) ⊎ Has e xs

-- The transmission that a repetition repeats.
abbrev pub original : Event → Event
original e = record e { kind = new_tx }

abbrev pub Explained : List Event → Event → Type 0
Explained before e = e.kind ≡ retx_tx → Has (original e) before

-- Every repetition in a history has its original before it; `before` is newest first.
abbrev pub AllExplained : List Event → List Event → Type 0
AllExplained before [] = Unit {0}
AllExplained before (e ∷ es) = Explained before e × AllExplained (e ∷ before) es

abbrev pub sending : ℕ → Proc → Event
sending p pr = record { kind = new_tx; proc = p; ndi = pr.ndi; coded = pr.coded }

-- Whatever is in flight has been sent as a new block.
abbrev Backed : List Event → HarqTx → Type 0
Backed before s = (p : ℕ) → (proc_at s p).busy ≡ true → Has (sending p (proc_at s p)) before

abbrev Keeps : HarqTx → HarqTx × List Event → Type 0
Keeps s r =
    (before : List Event) → Backed before s → AllExplained before r.1 × Backed (onto r.1 before) r.0

AllExplained-append :
    (es fs before : List Event)
    → AllExplained before es
    → AllExplained (onto es before) fs
    → AllExplained before (es ++ fs)
AllExplained-append [] fs before h k = k
AllExplained-append (e ∷ es) fs before h k = (h.0, AllExplained-append es fs (e ∷ before) h.1 k)

chain :
    (s t u : HarqTx) (es fs : List Event)
    → Keeps s (t, es)
    → Keeps t (u, fs)
    → Keeps s (u, es ++ fs)
chain s t u es fs h k before b =
    let first = h before b in
    let second = k (onto es before) first.1 in
    (
      AllExplained-append es fs before first.0 second.0,
      subst (λ x. Backed x u) (sym (onto-append es fs before)) second.1,
    )

none_done : (s : HarqTx) → Keeps s (s, [])
none_done s before b = (tt, b)

-- A process that is written is backed when it is free or what it holds was sent.
Backed-set :
    (before : List Event) (s : HarqTx) (p : ℕ) (pr : Proc)
    → Backed before s
    → (pr.busy ≡ true → Has (sending p pr) before)
    → Backed before (put_proc s p pr)
Backed-set before s p pr b h i = elim (ℕ_discrete p i) [
  | no ne ↦ rw (get_or-set_ne s.procs p i pr fresh_proc ne) (b i)
  | yes e ↦ rw (← e) (elim (dec_lt p (length s.procs)) [
    | yes lt ↦ rw (get_or-set_self s.procs p pr fresh_proc lt) h
    | no ge ↦ rw (set_outside s.procs p pr (omega arith)) (b p)
  ])
]

Retx-Keeps : (s : HarqTx) (p : ℕ) {r : HarqTx × Option Event} → Retx s p r → Keeps s (with_event r)
Retx-Keeps s p (idle free) before b = none_done s before b
Retx-Keeps s p (gives_up busy spent) before b =
    (tt, Backed-set before s p (given_up (proc_at s p)) b (λ e. cc))
Retx-Keeps s p (repeats_block busy left) before b = (
  ((λ e. b p busy), tt),
  Backed-set (repeat_event p (proc_at s p) ∷ before) s p (repeated s (proc_at s p))
      (λ i h. inr (b i h)) (λ e. inr (b p busy)),
)

poll-Keeps : (s : HarqTx) (now : ℕ) → Keeps s (poll_timeouts s now)
unfolding poll_timeouts advance
poll-Keeps s now =
    poll_loop_rule Keeps none_done chain (λ t p. Retx-Keeps t p (retx-Retx t p)) (length s.procs) 0
      now (record s { last_now = max s.last_now now })

started-Keeps :
    (s : HarqTx) (p : ℕ) (mac_pdu coded : List ℕ)
    → Keeps s (after_send s (started s p mac_pdu (some coded)))
unfolding started
started-Keeps s p mac_pdu coded before b = (
  ((λ e. cc), tt),
  Backed-set (sending p (loaded s p mac_pdu coded) ∷ before) s p (loaded s p mac_pdu coded)
      (λ i h. inr (b i h)) (λ e. inl refl),
)

start_at-Keeps :
    (s : HarqTx) (mac_pdu : List ℕ) (o : Option ℕ)
    → IsBytes mac_pdu
    → Keeps s (after_send s (start_at s mac_pdu o))
unfolding start_at
start_at-Keeps s mac_pdu none h = none_done s
start_at-Keeps s mac_pdu (some p) h =
    let coded = link_encode_returns mac_pdu p (bit_xor (proc_at s p).ndi 1) h in
    rw coded.1 (started-Keeps s p mac_pdu coded.0)

on_nack-Keeps : (s : HarqTx) (p : ℕ) → Keeps s (with_event (on_nack s p))
unfolding on_nack
on_nack-Keeps s p = elim (Bool-cases (leb (length s.procs) p)) [
  | inl out ↦ rw out (none_done s)
  | inr inside ↦ rw inside (Retx-Keeps s p (retx-Retx s p))
]

on_ack-Keeps : (s : HarqTx) (p : ℕ) → Keeps s (on_ack s p, [])
unfolding on_ack
on_ack-Keeps s p = elim (Bool-cases (leb (length s.procs) p)) [
  | inl out ↦ rw out (none_done s)
  | inr inside ↦
      rw inside (λ before b. (tt, Backed-set before s p (given_up (proc_at s p)) b (λ e. cc)))
]

idle_at : (prs : List Proc) (p : ℕ) → (get_or (map idle_proc prs) p fresh_proc).busy ≡ false
idle_at [] p = refl
idle_at (pr ∷ prs) zero = refl
idle_at (pr ∷ prs) (suc p) = idle_at prs p

step-Keeps : (s : HarqTx) (call : Call) → IsSendable call → Keeps s (step s call)
unfolding step send advance reset
step-Keeps s (sends mac_pdu) h = start_at-Keeps s mac_pdu (find_free s.cfg.num_processes 0 s) h
step-Keeps s (advances now) h = λ before b. (tt, b)
step-Keeps s (polls now) h = poll-Keeps s now
step-Keeps s (acks p) h = on_ack-Keeps s p
step-Keeps s (nacks p) h = on_nack-Keeps s p
step-Keeps s resets h = λ before b. (tt, λ p e. cc (sym (idle_at s.procs p) ∙ e))

run-Keeps : (s : HarqTx) (calls : List Call) → AllSendable calls → Keeps s (run s calls)
unfolding run
run-Keeps s [] h = none_done s
run-Keeps s (call ∷ calls) h =
    let (t, es) = step s call in
    let (u, fs) = run t calls in chain s t u es fs (step-Keeps s call h.0) (run-Keeps t calls h.1)

-- In any history of calls on a new transmitter, each repetition has before it the transmission of a
-- new block with the same process, the same new-data indicator and the same coded bytes.
-- (The blocks are of bytes.)
pub run-AllExplained :
    (c : Config) (calls : List Call) → AllSendable calls → AllExplained [] (run (init c) calls).1
run-AllExplained c calls h = (run-Keeps (init c) calls h [] nothing).0
  where
    nothing : Backed [] (init c)
    nothing =
        unfold init in
        λ p e.
          cc (sym (ap (λ (pr : Proc). pr.busy) (get_or-replicate c.num_processes p fresh_proc)) ∙ e)
