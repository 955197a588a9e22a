-- ===== src/Rlc/Am/Steps.antt =====
-- One PDU that the transmitter made, at a receiver that waits for it.
use aether_stack.Base.{
  ℕ, ◌/◌, ◌^◌, ◌<◌, ◌≡◌, refl, ap, ◌∙◌, List, [], ◌∷◌, ◌++◌, some, Bool, false, not, arith, bit_and,
  bit_or, ltb, ◌==◌, if◌then◌else◌, u8, u16,
}
use aether_stack.Base.Bits.{bit_and_mask, word_of_bytes}
use aether_stack.Rlc.Um.{bounded}
use aether_stack.Rlc.Um.Seen.{Below, insert_seen-Below}
use aether_stack.Rlc.Am.Tx.{get_u16, build_pdu}
use aether_stack.Rlc.Am.Rx.{
  AmRx, Outcome, no_outcome, accept_in_order, drain_loop, drain_reorder, rx_new, polled, rx_seen,
  rx,
}

-- The receiver waits for `sn`, has seen only what is below, and holds nothing back.
abbrev pub InStep : AmRx → ℕ → Type 0
InStep s sn = (s.vr_next ≡ sn) × Below sn s.seen × (s.reorder ≡ [])

pub get_u16-put_u16 : (sn : ℕ) → sn < 2 ^ 16 → get_u16 (u8 (bit_and sn 0xff)) (u8 (sn / 2 ^ 8)) ≡ sn
unfolding get_u16
get_u16-put_u16 sn h =
    ap u16 (word_of_bytes (u8 (bit_and sn 0xff)) (u8 (sn / 2 ^ 8)) (omega arith))
    ∙ omega (arith, bit_and_mask 8 sn, h)

-- The first byte of a PDU.
abbrev pub first_byte : ℕ → Bool → ℕ
first_byte fi poll = u8 (bit_or 0x80 (if poll then bit_or fi 0x08 else fi))

-- The position is read from the first byte, with or without the polling bit.
abbrev pub IsPosition : ℕ → Bool → Type 0
IsPosition fi poll =
    (bit_and (first_byte fi poll) 0xc0 ≡ 0x80) × (u8 (bit_and (first_byte fi poll) 0x30) ≡ fi)

abbrev pub noted : AmRx → ℕ → AmRx
noted s sn = record s { seen = bounded (s.seen ++ (sn ∷ [])) }

drain_nothing : (s : AmRx) (out : Outcome) → s.reorder ≡ [] → drain_reorder s out ≡ (s, out)
unfolding drain_reorder drain_loop
drain_nothing s out h = rw h refl

rx_new-accept :
    (s : AmRx) (fi sn : ℕ) (payload : List ℕ)
    → ltb s.vr_next sn ≡ false
    → (accept_in_order s sn fi payload no_outcome).0.reorder ≡ []
    → rx_new s fi sn payload ≡ accept_in_order s sn fi payload no_outcome
unfolding rx_new
rx_new-accept s fi sn payload h empty = rw h (
    drain_nothing (accept_in_order s sn fi payload no_outcome).0
      (accept_in_order s sn fi payload no_outcome).1 empty)

rx_seen-accept :
    (s : AmRx) (b0 fi sn : ℕ) (payload seen : List ℕ)
    → s.vr_next ≡ sn
    → u8 (bit_and b0 0x30) ≡ fi
    → (accept_in_order (record s { seen = bounded seen }) sn fi payload no_outcome).0.reorder ≡ []
    → rx_seen s b0 sn payload (some seen)
      ≡ polled
          (not (bit_and b0 0x08 == 0))
          (accept_in_order (record s { seen = bounded seen }) sn fi payload no_outcome)
unfolding rx_seen
rx_seen-accept s b0 fi sn payload seen e f empty =
    let not_below : ltb sn s.vr_next ≡ false = ground (arith, e) in
    rw (not_below, f)
      (ap (polled (not (bit_and b0 0x08 == 0)))
        (rx_new-accept (record s { seen = bounded seen }) fi sn payload (ground (arith, e)) empty))

pub rx-build_pdu :
    (s : AmRx) (sn fi : ℕ) (poll : Bool) (payload : List ℕ)
    → InStep s sn
    → sn < 2 ^ 16
    → IsPosition fi poll
    → (accept_in_order (noted s sn) sn fi payload no_outcome).0.reorder ≡ []
    → rx s (build_pdu sn (if poll then bit_or fi 0x08 else fi) payload)
      ≡ polled
          (not (bit_and (first_byte fi poll) 0x08 == 0))
          (accept_in_order (noted s sn) sn fi payload no_outcome)
unfolding rx build_pdu
rx-build_pdu s sn fi poll payload step h position empty =
    let seen = s.seen ++ (sn ∷ []) in
    rw (get_u16-put_u16 sn h, position.0)
      (ap (rx_seen s (first_byte fi poll) sn payload) (insert_seen-Below sn s.seen step.1)
        ∙ rx_seen-accept s (first_byte fi poll) fi sn payload seen step.0 position.1 empty)
