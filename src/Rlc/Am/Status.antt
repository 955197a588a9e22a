-- ===== src/Rlc/Am/Status.antt =====
-- What a STATUS makes the transmitter resend.
use aether_stack.Base.{
  ℕ, ltb, sym, ◌∙◌, ==_iff, if◌then◌else◌, zero, suc, ◌+◌, ◌^◌, ◌<◌, ◌≤◌, ◌≡◌, refl, ap, List, [],
  ◌∷◌, Option, none, some, Option-cases, Bool, true, false, not, ◌&&◌, arith, length, leb, ◌==◌,
  Bool-cases, inl, inr, u8, lookup,
}
use aether_stack.Rlc.Am.{am_dc_control}
use aether_stack.Rlc.Am.Tx.{
  AmTx, put_u16, get_u16, unacked_from, same_sn, nack_loop, within, burst_allowed, on_status,
}
use aether_stack.Rlc.Am.Rx.{AmRx, put_all, build_status}
use aether_stack.Rlc.Um.Seen.{Below}
use aether_stack.Rlc.Am.Steps.{get_u16-put_u16}

length-nack_loop :
    (count batch sent : ℕ) (buffer : List (ℕ × List ℕ)) (bytes : List ℕ)
    → sent ≤ batch
    → length (nack_loop count batch sent buffer bytes) + sent ≤ batch
unfolding nack_loop
length-nack_loop zero batch sent buffer bytes h = omega arith
length-nack_loop (suc count) batch sent buffer [] h = omega arith
length-nack_loop (suc count) batch sent buffer (lo ∷ []) h = omega arith
length-nack_loop (suc count) batch sent buffer (lo ∷ hi ∷ bytes) h =
    elim (Bool-cases (leb batch sent)) [
      | inl full ↦ rw full (omega arith)
      | inr space ↦ elim (Option-cases (lookup same_sn buffer (get_u16 lo hi))) [
        | inl e ↦ rw (space, e) (length-nack_loop count batch sent buffer bytes h)
        | inr e ↦
            rw (space, e.1)
              (let rest =
                  length-nack_loop count batch (sent + 1) buffer bytes (ground (arith, space)) in
                omega (arith, rest))
      ]
    ]

-- No STATUS, whatever its bytes are, makes the transmitter resend more PDUs than a batch holds.
pub length-on_status :
    (t : AmTx) (now_ms : ℕ) (status : List ℕ)
    → length (on_status t now_ms status).1 ≤ t.cfg.probe_batch
unfolding on_status
length-on_status t now_ms [] = omega arith
length-on_status t now_ms (a ∷ []) = omega arith
length-on_status t now_ms (a ∷ b ∷ []) = omega arith
length-on_status t now_ms (a ∷ b ∷ c ∷ []) = omega arith
length-on_status t now_ms (a ∷ lo ∷ hi ∷ count ∷ bytes) =
    let buffer = unacked_from (get_u16 lo hi) t.tx_buffer in
    let n = length-nack_loop count t.cfg.probe_batch 0 buffer bytes (omega arith) in
    elim (Bool-cases (a == am_dc_control)) [
      | inr other ↦ rw other (omega arith)
      | inl control ↦ elim (Bool-cases (burst_allowed t now_ms count)) [
        | inl allowed ↦ rw (control, allowed) (omega (arith, n))
        | inr refused ↦ rw (control, refused) (omega arith)
      ]
    ]

-- The PDUs of a buffer under the numbers of a list.
unfoldable pub named : List (ℕ × List ℕ) → List ℕ → List (List ℕ)
named buffer [] = []
named buffer (sn ∷ sns) = kept (lookup same_sn buffer sn) (named buffer sns)
  where
    kept : Option (List ℕ) → List (List ℕ) → List (List ℕ)
    kept none rest = rest
    kept (some pdu) rest = pdu ∷ rest

nack_loop-put_all :
    (holes : List ℕ) (batch sent : ℕ) (buffer : List (ℕ × List ℕ))
    → Below (2 ^ 16) holes
    → sent + length holes ≤ batch
    → nack_loop (length holes) batch sent buffer (put_all holes) ≡ named buffer holes
unfolding nack_loop put_all put_u16 named
nack_loop-put_all [] batch sent buffer h k = refl
nack_loop-put_all (sn ∷ holes) batch sent buffer h k =
    let space : leb batch sent ≡ false = ground (arith, k) in
    elim (Option-cases (lookup same_sn buffer sn)) [
      | inl e ↦
          rw (space, get_u16-put_u16 sn h.0, e)
            (nack_loop-put_all holes batch sent buffer h.1 (omega arith))
      | inr e ↦
          rw (space, get_u16-put_u16 sn h.0, e.1)
            (ap (◌∷◌ e.0) (nack_loop-put_all holes batch (sent + 1) buffer h.1 (omega arith)))
    ]

lookup-unacked_from :
    (ack sn : ℕ) (buffer : List (ℕ × List ℕ))
    → lookup same_sn (unacked_from ack buffer) sn
      ≡ (if ltb sn ack then none else lookup same_sn buffer sn)
unfolding unacked_from
lookup-unacked_from ack sn [] = neither (ltb sn ack)
  where
    absent : Option (List ℕ)
    absent = none

    neither : (b : Bool) → absent ≡ (if b then absent else absent)
    neither true = refl
    neither false = refl
lookup-unacked_from ack sn (e ∷ es) = elim (Bool-cases (ltb e.0 ack)) [
  | inl acked ↦ elim (Bool-cases (e.0 == sn)) [
    | inl here ↦
        let below : ltb sn ack ≡ true =
          ap (λ n. ltb n ack) (sym ((==_iff e.0 sn).0 here)) ∙ acked in
        rw acked (lookup-unacked_from ack sn es ∙ rw (below) refl)
    | inr there ↦ rw (acked, there) (lookup-unacked_from ack sn es)
  ]
  | inr unacked ↦ elim (Bool-cases (e.0 == sn)) [
    | inl here ↦
        let above : ltb sn ack ≡ false =
          ap (λ n. ltb n ack) (sym ((==_iff e.0 sn).0 here)) ∙ unacked in
        rw (unacked, here, above) refl
    | inr there ↦ rw (unacked, there) (lookup-unacked_from ack sn es)
  ]
]

-- The STATUS of a receiver makes the transmitter forget each PDU below the number that the receiver
-- waits for, keep each other PDU that it holds, and resend exactly those that it then holds of the
-- receiver's holes, in increasing order. (The holes are at most a batch and less than 256, the
-- numbers have 16 bits, and a burst is allowed.)
pub on_status-build_status :
    (t : AmTx) (s : AmRx) (now_ms : ℕ)
    → s.vr_next < 2 ^ 16
    → Below (2 ^ 16) s.holes
    → length s.holes < 256
    → length s.holes ≤ t.cfg.probe_batch
    → burst_allowed t now_ms (length s.holes) ≡ true
    → let r = on_status t now_ms (build_status s) in
      ((sn : ℕ) → sn < s.vr_next → lookup ◌==◌ r.0.tx_buffer sn ≡ none)
      × ((sn : ℕ) → s.vr_next ≤ sn → lookup ◌==◌ r.0.tx_buffer sn ≡ lookup ◌==◌ t.tx_buffer sn)
      × (r.1 ≡ named r.0.tx_buffer s.holes)
on_status-build_status t s now_ms v below few fits allowed = (
  λ sn h. (let under : ltb sn s.vr_next ≡ true = ground (arith, h) in held sn ∙ rw under refl),
  λ sn h. (let over : ltb sn s.vr_next ≡ false = ground (arith, h) in held sn ∙ rw over refl),
  answer.1 ∙ ap (λ b. named b s.holes) (sym (answer.0)),
)
  where
    answer :
        ((on_status t now_ms (build_status s)).0.tx_buffer ≡ unacked_from s.vr_next t.tx_buffer)
        × ((on_status t now_ms (build_status s)).1
            ≡ named (unacked_from s.vr_next t.tx_buffer) s.holes)
    answer =
        unfold on_status build_status put_u16 in
        let count : u8 (length s.holes) ≡ length s.holes = omega (arith, few) in
        let buffer = unacked_from s.vr_next t.tx_buffer in
        rw (get_u16-put_u16 s.vr_next v, count, allowed)
          (refl, nack_loop-put_all s.holes t.cfg.probe_batch 0 buffer below (omega (arith, fits)))

    held :
        (sn : ℕ)
        → lookup ◌==◌ (on_status t now_ms (build_status s)).0.tx_buffer sn
          ≡ (if ltb sn s.vr_next then none else lookup ◌==◌ t.tx_buffer sn)
    held sn = ap (λ b. lookup ◌==◌ b sn) (answer.0) ∙ lookup-unacked_from s.vr_next sn t.tx_buffer

-- With 256 holes, as many as the receiver keeps, the STATUS names none of them: whatever the
-- transmitter holds, it resends nothing.
pub on_status-no_room :
    (t : AmTx) (s : AmRx) (now_ms : ℕ)
    → length s.holes ≡ 256
    → (on_status t now_ms (build_status s)).1 ≡ []
unfolding on_status build_status put_u16
on_status-no_room t s now_ms full =
    let count : u8 (length s.holes) ≡ 0 = omega (arith, full) in rw (count, nothing) refl
  where
    neither : (b : Bool) → (b && false) ≡ false
    neither true = refl
    neither false = refl

    nothing : burst_allowed t now_ms 0 ≡ false
    nothing =
        unfold burst_allowed in neither (not (within t.last_nack_burst_ms now_ms t.cfg.t_poll_ms))
