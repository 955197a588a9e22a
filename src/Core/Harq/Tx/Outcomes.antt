-- ===== src/Core/Harq/Tx/Outcomes.antt =====
-- The outcomes of `retx`, and the rule by which a relation between a state and what a call makes of
-- it passes from `retx` to `poll_timeouts`.
use aether_stack.Base.{
  IsBytes, ℕ, zero, suc, ◌+◌, ◌<◌, ◌≤◌, ◌≡◌, subst, dec_lt, u32, sym, List, [], ◌∷◌, ◌++◌, Option,
  none, some, Bool, true, false, if◌then◌else◌, u8, arith, Bool-cases, inl, inr,
}
use aether_stack.Core.Harq.Tx.{
  Proc, HarqTx, retx_tx, Event, proc_at, put_proc, retx, expired, poll_loop, Call, sends,
  with_event,
}

-- The transport blocks that are handed over are bytes.
abbrev pub IsSendable : Call → Type 0
IsSendable (sends mac_pdu) = IsBytes mac_pdu
IsSendable _ = Unit {0}

abbrev pub AllSendable : List Call → Type 0
AllSendable [] = Unit {0}
AllSendable (c ∷ cs) = IsSendable c × AllSendable cs

abbrev pub given_up : Proc → Proc
given_up pr = record pr { busy = false; crc_block = [] }

abbrev pub repeated : HarqTx → Proc → Proc
repeated s pr = record pr {
  retx_count = u8 (pr.retx_count + 1);
  deadline = u32 (s.last_now + s.cfg.ack_timeout_ms);
}

abbrev pub repeat_event : ℕ → Proc → Event
repeat_event p pr = record { kind = retx_tx; proc = p; ndi = pr.ndi; coded = pr.coded }

-- The three outcomes of `retx`.
pub data Retx (s : HarqTx) (p : ℕ) : HarqTx × Option Event → Type 0 where
  idle : (proc_at s p).busy ≡ false → Retx s p (s, none)
  gives_up :
      (proc_at s p).busy ≡ true
      → s.cfg.max_retx ≤ (proc_at s p).retx_count
      → Retx s p (put_proc s p (given_up (proc_at s p)), none)
  repeats_block :
      (proc_at s p).busy ≡ true
      → (proc_at s p).retx_count < s.cfg.max_retx
      → Retx s p (put_proc s p (repeated s (proc_at s p)), some (repeat_event p (proc_at s p)))

pub retx-Retx : (s : HarqTx) (p : ℕ) → Retx s p (retx s p)
unfolding retx
retx-Retx s p = elim (Bool-cases (proc_at s p).busy) [
  | inr free ↦ subst (Retx s p) (sym (ground (arith, free))) (idle free)
  | inl busy ↦ elim (dec_lt (proc_at s p).retx_count s.cfg.max_retx) [
    | yes left ↦ subst (Retx s p) (sym (ground (arith, busy, left))) (repeats_block busy left)
    | no spent ↦ subst (Retx s p) (sym (ground (arith, busy, spent))) (gives_up busy (omega arith))
  ]
]

-- The rule for the loop over all processes.
module _ {ℓ} (R : HarqTx → HarqTx × List Event → Type ℓ) (none_done : (s : HarqTx) → R s (s, []))
    (chain : (s t u : HarqTx) (es fs : List Event) → R s (t, es) → R t (u, fs) → R s (u, es ++ fs))
    (one : (s : HarqTx) (p : ℕ) → R s (with_event (retx s p))) where
  one_polled :
      (s : HarqTx) (p : ℕ) (late : Bool) → R s (with_event (if late then retx s p else (s, none)))
  one_polled s p true = one s p
  one_polled s p false = none_done s

  pub poll_loop_rule : (n p now : ℕ) (s : HarqTx) → R s (poll_loop n p now s)
  unfolding poll_loop
  poll_loop_rule zero p now s = none_done s
  poll_loop_rule (suc n) p now s =
      chain s _ _ _ _ (one_polled s p (expired s now p)) (poll_loop_rule n (p + 1) now _)
