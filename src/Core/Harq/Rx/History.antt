-- ===== src/Core/Harq/Rx/History.antt =====
-- The receiver over a history of frames.
use aether_stack.Base.{
  ℕ, ◌+◌, ◌*◌, ◌%◌, ◌≡◌, inl, inr, refl, List, [], ◌∷◌, Option, none, some, false, length, take,
  drop, ltb, arith, length-take, length-drop, Bool-cases,
}
use aether_stack.Phy.Fec.BitOrder.{bytes_to_bits}
use aether_stack.Phy.Fec.BitOrder.RoundTrip.{length-bytes_to_bits}
use aether_stack.Core.Harq.Wire.{
  Header, header_size, unpack, Verdict, verdict, escaped, link_decode_bits,
}
use aether_stack.Core.Harq.Rx.{
  HarqRx, Reception, received, crashed, after_decode, receive_header, receive, reset, Result,
}
use aether_stack.Core.Harq.Rx.Soft.{
  AllFit, Agrees, reset-AllFit, remember-AllFit, receive_block_alone,
}

-- The state after a frame; a crash ends the run.
unfoldable pub state_after : HarqRx → Reception → HarqRx
state_after s (received r t) = t
state_after s crashed = s

-- What the caller is told.
abbrev pub answer : Reception → Option Result
answer (received r t) = some r
answer crashed = none

unfoldable pub run : HarqRx → List (List ℕ) → HarqRx
unfolding state_after
run s [] = s
run s (f ∷ fs) = run (state_after s (receive s f)) fs

abbrev pub AgreesFrame : List ℕ → Type 0
AgreesFrame f = (h : Header) → unpack f ≡ some h → Agrees h

abbrev pub AllAgree : List (List ℕ) → Type 0
AllAgree [] = Unit {0}
AllAgree (f ∷ fs) = AgreesFrame f × AllAgree fs

after_decode-AllFit :
    (s : HarqRx) (h : Header) (bits : List ℕ) (v : Verdict)
    → AllFit s.soft
    → length bits % 16 ≡ 12
    → AllFit (state_after s (after_decode s h bits v)).soft
unfolding after_decode state_after
after_decode-AllFit s h bits (verdict d mac_pdu) fit e = remember-AllFit s h d bits fit e
after_decode-AllFit s h bits escaped fit e = fit

after_decode-answer :
    (s t : HarqRx) (h : Header) (bits : List ℕ) (v : Verdict)
    → answer (after_decode s h bits v) ≡ answer (after_decode t h bits v)
unfolding after_decode
after_decode-answer s t h bits (verdict d mac_pdu) = refl
after_decode-answer s t h bits escaped = refl

rx_bits_of : Header → List ℕ → List ℕ
rx_bits_of h payload = bytes_to_bits (take h.len (drop header_size payload))

length-rx_bits :
    (h : Header) (payload : List ℕ)
    → Agrees h
    → ltb (length payload) (header_size + h.len) ≡ false
    → length (rx_bits_of h payload) ≡ 16 * h.info_len + 16
unfolding rx_bits_of
length-rx_bits h payload agrees long = ground (
  arith,
  length-bytes_to_bits (take h.len (drop header_size payload)),
  length-take h.len (drop header_size payload),
  length-drop header_size payload,
)

module _ (s : HarqRx) (payload : List ℕ) (fit : AllFit s.soft) where
  receive_header_alone :
      (h : Header)
      → Agrees h
      → ltb (length payload) (header_size + h.len) ≡ false
      → receive_header s payload (some h)
        ≡ after_decode s h
            (take (16 * h.info_len + 12) (rx_bits_of h payload))
            (link_decode_bits (take (16 * h.info_len + 12) (rx_bits_of h payload)) h.info_len [])
  unfolding receive_header rx_bits_of
  receive_header_alone h agrees long =
      rw long
        (receive_block_alone s h (rx_bits_of h payload) fit (length-rx_bits h payload agrees long))

  header-AllFit :
      (o : Option Header)
      → ((h : Header) → o ≡ some h → Agrees h)
      → AllFit (state_after s (receive_header s payload o)).soft
  header-AllFit none agrees = unfold receive_header state_after in fit
  header-AllFit (some h) agrees = elim (Bool-cases (ltb (length payload) (header_size + h.len))) [
    | inl short ↦ unfold receive_header state_after in rw short fit
    | inr long ↦ rw (receive_header_alone h (agrees h refl) long) (
        after_decode-AllFit s h (take (16 * h.info_len + 12) (rx_bits_of h payload)) _ fit (
          omega (
            arith,
            length-take (16 * h.info_len + 12) (rx_bits_of h payload),
            length-rx_bits h payload (agrees h refl) long,
          )))
  ]

receive-AllFit :
    (s : HarqRx) (f : List ℕ)
    → AllFit s.soft
    → AgreesFrame f
    → AllFit (state_after s (receive s f)).soft
receive-AllFit s f fit agrees = unfold receive in header-AllFit s f fit (unpack f) agrees

pub run-AllFit :
    (s : HarqRx) (fs : List (List ℕ)) → AllFit s.soft → AllAgree fs → AllFit (run s fs).soft
unfolding run
run-AllFit s [] fit agree = fit
run-AllFit s (f ∷ fs) fit agree =
    run-AllFit (state_after s (receive s f)) fs (receive-AllFit s f fit agree.0) agree.1

header-answer :
    (s t : HarqRx) (payload : List ℕ) (o : Option Header)
    → AllFit s.soft
    → AllFit t.soft
    → ((h : Header) → o ≡ some h → Agrees h)
    → answer (receive_header s payload o) ≡ answer (receive_header t payload o)
header-answer s t payload none a b agrees = unfold receive_header in refl
header-answer s t payload (some h) a b agrees =
    elim (Bool-cases (ltb (length payload) (header_size + h.len))) [
      | inl short ↦ unfold receive_header in rw short refl
      | inr long ↦
          rw
            (
              receive_header_alone s payload a h (agrees h refl) long,
              receive_header_alone t payload b h (agrees h refl) long,
            )
            (after_decode-answer s t h _ _)
    ]

-- Among frames whose header lengths agree as `link_encode` writes them, what the receiver answers
-- to a frame does not depend on the frames before it: no soft bits are ever merged.
pub receive-run :
    (s : HarqRx) (fs : List (List ℕ)) (f : List ℕ)
    → AllAgree fs
    → AgreesFrame f
    → answer (receive (run (reset s) fs) f) ≡ answer (receive (reset s) f)
receive-run s fs f before agrees =
    unfold receive in
    header-answer (run (reset s) fs) (reset s) f (unpack f)
      (run-AllFit (reset s) fs (reset-AllFit s) before) (reset-AllFit s) agrees
