-- ===== src/Rlc/Am/Delivery.antt =====
-- What the receiver of acknowledged mode makes of each PDU of the transmitter.
use aether_stack.Base.{
  ℕ, ◌+◌, ◌%◌, ◌^◌, ◌<◌, ◌≡◌, refl, ap, ◌∙◌, List, [], ◌∷◌, ◌++◌, Bool, true, false, not, arith,
  bit_and, bit_or, ◌==◌, if◌then◌else◌, u16,
}
use aether_stack.Rlc.Am.Tx.{build_pdu}
use aether_stack.Rlc.Am.Rx.{
  AmRx, Outcome, no_outcome, with_sdu, erase_hole, accept_in_order, polled, rx,
}
use aether_stack.Rlc.Um.Seen.{append-Below, bounded-Below}
use aether_stack.Rlc.Am.Steps.{InStep, first_byte, IsPosition, noted, rx-build_pdu}

abbrev pub with_poll : ℕ → Bool → ℕ
with_poll fi poll = if poll then bit_or fi 0x08 else fi

abbrev pub advanced : AmRx → ℕ → AmRx
advanced s sn = record (noted s sn) {
  holes = erase_hole s.holes sn;
  accepts = (s.accepts + 1) % 2 ^ 64;
  vr_next = u16 (s.vr_next + 1);
}

pub advanced-InStep :
    (s : AmRx) (sn : ℕ) → InStep s sn → sn + 1 < 2 ^ 16 → InStep (advanced s sn) (sn + 1)
advanced-InStep s sn h k = (
  omega (arith, h.0, k),
  bounded-Below (sn + 1) (s.seen ++ (sn ∷ [])) (append-Below sn s.seen h.1),
  h.2,
)

middle-IsPosition : (poll : Bool) → IsPosition 0x30 poll
middle-IsPosition true = (refl, refl)
middle-IsPosition false = (refl, refl)

first-IsPosition : (poll : Bool) → IsPosition 0x10 poll
first-IsPosition true = (refl, refl)
first-IsPosition false = (refl, refl)

last-IsPosition : (poll : Bool) → IsPosition 0x20 poll
last-IsPosition true = (refl, refl)
last-IsPosition false = (refl, refl)

whole-IsPosition : (poll : Bool) → IsPosition 0x00 poll
whole-IsPosition true = (refl, refl)
whole-IsPosition false = (refl, refl)

module _ (s : AmRx) (sn : ℕ) (poll : Bool) (payload : List ℕ) (step : InStep s sn)
    (h : sn < 2 ^ 16) where
  -- The outcome of a PDU whose reassembly is known.
  rx_lem :
      (fi : ℕ) {t : AmRx} {out : Outcome}
      → IsPosition fi poll
      → accept_in_order (noted s sn) sn fi payload no_outcome ≡ (t, out)
      → t.reorder ≡ s.reorder
      → rx s (build_pdu sn (with_poll fi poll) payload)
        ≡ polled (not (bit_and (first_byte fi poll) 0x08 == 0)) (t, out)
  rx_lem fi position e same =
      rx-build_pdu s sn fi poll payload step h position (ap (λ a. a.0.reorder) e ∙ same ∙ step.2)
      ∙ ap (polled (not (bit_and (first_byte fi poll) 0x08 == 0))) e

  pub rx_first :
      rx s (build_pdu sn (with_poll 0x10 poll) payload)
      ≡ polled
          (not (bit_and (first_byte 0x10 poll) 0x08 == 0))
          (record (advanced s sn) { collecting = true; partial_sdu = payload }, no_outcome)
  rx_first = rx_lem 0x10 (first-IsPosition poll) (unfold accept_in_order in refl) refl

  pub rx_whole :
      rx s (build_pdu sn (with_poll 0x00 poll) payload)
      ≡ polled
          (not (bit_and (first_byte 0x00 poll) 0x08 == 0))
          (advanced s sn, with_sdu no_outcome payload)
  rx_whole = rx_lem 0x00 (whole-IsPosition poll) (unfold accept_in_order in refl) refl

  pub rx_middle :
      s.collecting ≡ true
      → rx s (build_pdu sn (with_poll 0x30 poll) payload)
        ≡ polled
            (not (bit_and (first_byte 0x30 poll) 0x08 == 0))
            (record (advanced s sn) { partial_sdu = s.partial_sdu ++ payload }, no_outcome)
  rx_middle c = rx_lem 0x30 (middle-IsPosition poll) (unfold accept_in_order in simp c refl) refl

  pub rx_last :
      s.collecting ≡ true
      → rx s (build_pdu sn (with_poll 0x20 poll) payload)
        ≡ polled (not (bit_and (first_byte 0x20 poll) 0x08 == 0)) (
          record (advanced s sn) { collecting = false; partial_sdu = [] },
          with_sdu no_outcome (s.partial_sdu ++ payload),
        )
  rx_last c = rx_lem 0x20 (last-IsPosition poll) (unfold accept_in_order in simp c refl) refl
