-- ===== src/Rlc/Am/RoundTrip.antt =====
-- The PDUs of an SDU, received in their order, bring out the SDU.
use aether_stack.Base.{
  ℕ, zero, suc, ◌+◌, ◌-◌, ◌/◌, ◌^◌, ◌<◌, ◌≤◌, ◌≡◌, refl, sym, ap, ◌∙◌, List, [], ◌∷◌, ◌++◌, Bool,
  true, false, arith, append_assoc, length, take, drop, leb, if◌then◌else◌, u8, u16, some,
}
use aether_stack.Rlc.Um.{fi_of, segment_bytes, segments_of}
use aether_stack.Rlc.Um.Reassembly.{
  take-drop, fi_middle, fi_last, fi_first, bytes_inner, bytes_last,
}
use aether_stack.Rlc.Am.Tx.{AmTx, build_pdu, send_segment, tx_loop, tx}
use aether_stack.Rlc.Am.Rx.{AmRx, rx}
use aether_stack.Rlc.Am.Steps.{InStep}
use aether_stack.Rlc.Am.Delivery.{
  with_poll, advanced, advanced-InStep, rx_first, rx_whole, rx_middle, rx_last,
}

-- The SDUs that PDUs, received in their order, bring out.
unfoldable pub rx_all : AmRx → List (List ℕ) → List (List ℕ)
rx_all s [] = []
rx_all s (p ∷ ps) = (rx s p).1.delivered ++ rx_all (rx s p).0 ps

abbrev polls : AmTx → Bool
polls t = leb t.cfg.poll_every (u8 (t.since_poll + 1))

-- The PDU of a segment.
abbrev pdu_of : AmTx → ℕ → List ℕ → List ℕ
pdu_of t fi payload = build_pdu t.next_sn (with_poll fi (polls t)) payload

abbrev sent : AmTx → ℕ → ℕ → List ℕ → AmTx
sent t seg segments left = (send_segment t seg segments left).0

sent_lem :
    (t : AmTx) (seg segments : ℕ) (left : List ℕ)
    → ((sent t seg segments left).next_sn ≡ u16 (t.next_sn + 1))
      × ((sent t seg segments left).cfg ≡ t.cfg)
unfolding send_segment
sent_lem t seg segments left = (refl, refl)

rx_all-tx_loop :
    (n seg segments : ℕ) (t : AmTx) (left : List ℕ) (s : AmRx) (fi : ℕ) (payload : List ℕ)
    → fi_of seg segments ≡ fi
    → segment_bytes t.cfg.max_pdu_payload seg segments left ≡ payload
    → rx_all s (tx_loop (suc n) seg segments t left).1
      ≡ (rx s (pdu_of t fi payload)).1.delivered
        ++ rx_all
            (rx s (pdu_of t fi payload)).0
            (tx_loop n
              (seg + 1)
              segments
              (sent t seg segments left)
              (drop t.cfg.max_pdu_payload left)).1
unfolding rx_all tx_loop
rx_all-tx_loop n seg segments t left s fi payload e f =
    let pdu : (send_segment t seg segments left).1 ≡ pdu_of t fi payload =
      unfold send_segment in rw (e, f) refl in
    ap
      (λ p.
        (rx s p).1.delivered
        ++ rx_all (rx s p).0
            (tx_loop n (seg + 1) segments (sent t seg segments left)
              (drop t.cfg.max_pdu_payload left)).1)
      pdu

no_more :
    (seg segments : ℕ) (t : AmTx) (left : List ℕ) (s : AmRx)
    → rx_all s (tx_loop 0 seg segments t left).1 ≡ []
unfolding rx_all tx_loop
no_more seg segments t left s = refl

-- The segments behind the first.
rx_all-rest :
    (n seg segments : ℕ) (t : AmTx) (left : List ℕ) (s : AmRx)
    → 1 ≤ seg
    → seg + suc n ≡ segments
    → InStep s t.next_sn
    → t.next_sn + suc n ≤ 2 ^ 16
    → s.collecting ≡ true
    → rx_all s (tx_loop (suc n) seg segments t left).1 ≡ (s.partial_sdu ++ left) ∷ []
rx_all-rest zero seg segments t left s h e step room c =
    rx_all-tx_loop 0 seg segments t left s 0x20 left (fi_last seg segments h (omega (arith, e)))
      (bytes_last t.cfg.max_pdu_payload seg segments left (omega (arith, e)))
    ∙ rw
        (
          rx_last s t.next_sn (polls t) left step (omega arith) c,
          no_more (seg + 1) segments (sent t seg segments left) (drop t.cfg.max_pdu_payload left)
              (record (advanced s t.next_sn) { collecting = false; partial_sdu = [] }),
        )
        refl
rx_all-rest (suc n) seg segments t left s h e step room c =
    let piece = take t.cfg.max_pdu_payload left in
    let behind = drop t.cfg.max_pdu_payload left in
    let u = sent t seg segments left in
    let next : (u.next_sn ≡ t.next_sn + 1) =
      (sent_lem t seg segments left).0 ∙ omega (arith, room) in
    let r : AmRx = record (advanced s t.next_sn) { partial_sdu = s.partial_sdu ++ piece } in
    let ready : InStep r (t.next_sn + 1) = advanced-InStep s t.next_sn step (omega (arith, room)) in
    rx_all-tx_loop (suc n) seg segments t left s 0x30 piece
      (fi_middle seg segments h (omega (arith, e)))
      (bytes_inner t.cfg.max_pdu_payload seg segments left (omega (arith, e)))
    ∙ rw (rx_middle s t.next_sn (polls t) piece step (omega arith) c) (
        rx_all-rest n (seg + 1) segments u behind r (omega arith) (omega (arith, e))
          (ready.0 ∙ sym next, rw next ready.1, ready.2) (omega (arith, next, room)) c
        ∙ ap (λ l. l ∷ [])
            (append_assoc s.partial_sdu piece behind
              ∙ ap (λ l. s.partial_sdu ++ l) (take-drop t.cfg.max_pdu_payload left)))

rx_all-segments :
    (n : ℕ) (t : AmTx) (sdu : List ℕ) (s : AmRx)
    → InStep s t.next_sn
    → t.next_sn + suc n ≤ 2 ^ 16
    → rx_all s (tx_loop (suc n) 0 (suc n) t sdu).1 ≡ sdu ∷ []
rx_all-segments zero t sdu s step room =
    rx_all-tx_loop 0 0 1 t sdu s 0x00 sdu (unfold fi_of in refl) (unfold segment_bytes in refl)
    ∙ rw
        (
          rx_whole s t.next_sn (polls t) sdu step (omega arith),
          no_more 1 1 (sent t 0 1 sdu) (drop t.cfg.max_pdu_payload sdu) (advanced s t.next_sn),
        )
        refl
rx_all-segments (suc n) t sdu s step room =
    let segments = suc (suc n) in
    let piece = take t.cfg.max_pdu_payload sdu in
    let behind = drop t.cfg.max_pdu_payload sdu in
    let u = sent t 0 segments sdu in
    let next : u.next_sn ≡ t.next_sn + 1 = (sent_lem t 0 segments sdu).0 ∙ omega (arith, room) in
    let r : AmRx = record (advanced s t.next_sn) { collecting = true; partial_sdu = piece } in
    let ready : InStep r (t.next_sn + 1) = advanced-InStep s t.next_sn step (omega (arith, room)) in
    rx_all-tx_loop (suc n) 0 segments t sdu s 0x10 piece (fi_first segments (omega arith))
      (bytes_inner t.cfg.max_pdu_payload 0 segments sdu (omega arith))
    ∙ rw (rx_first s t.next_sn (polls t) piece step (omega arith)) (
        rx_all-rest n 1 segments u behind r (omega arith) (omega arith)
          (ready.0 ∙ sym next, rw next ready.1, ready.2) (omega (arith, next, room)) refl
        ∙ ap (λ l. l ∷ []) (take-drop t.cfg.max_pdu_payload sdu))

-- An SDU that the window has room for is cut into PDUs which, received in their order, bring out
-- exactly this SDU and nothing else, whatever its length, the size of a PDU and the polling. (The
-- SDU is not empty, a PDU holds at least one byte, the buffer is below its limit, the receiver waits
-- for the next number, has seen only numbers below and holds nothing back, and the numbers of the
-- SDU do not wrap around.)
pub rx_all-tx :
    (t : AmTx) (s : AmRx) (now_ms : ℕ) (sdu : List ℕ) (force : Bool)
    → 0 < length sdu
    → 0 < t.cfg.max_pdu_payload
    → length t.tx_buffer < t.cfg.tx_buffer_limit
    → InStep s t.next_sn
    → t.next_sn + segments_of t.cfg.max_pdu_payload (length sdu) ≤ 2 ^ 16
    → rx_all s (tx t now_ms sdu force).1 ≡ sdu ∷ []
unfolding tx
rx_all-tx t s now_ms [] force h m free step room = absurd (omega arith)
rx_all-tx t s now_ms (x ∷ sdu) force h m free step room =
    let n = segments_of t.cfg.max_pdu_payload (length (x ∷ sdu)) in
    let begun : AmTx = record t { last_progress_ms = some now_ms } in
    let open_window : leb (t.cfg.tx_buffer_limit + (if force then 4 else 0)) (length t.tx_buffer)
        ≡ false =
      ground (arith, free) in
    rw open_window
      (counted n (n - 1) begun (some_segment (length sdu) t.cfg.max_pdu_payload m) step room)
  where
    at_least : (k m : ℕ) → 0 < m → 1 ≤ (suc k + m - 1) / m
    at_least k m h = grind arith

    some_segment : (k m : ℕ) → 0 < m → segments_of m (suc k) ≡ suc (segments_of m (suc k) - 1)
    some_segment k m h = unfold segments_of in omega (arith, at_least k m h)

    counted :
        (n k : ℕ) (u : AmTx)
        → n ≡ suc k
        → InStep s u.next_sn
        → u.next_sn + n ≤ 2 ^ 16
        → rx_all s (tx_loop n 0 n u (x ∷ sdu)).1 ≡ (x ∷ sdu) ∷ []
    counted n k u e ready fits =
        rw e (rx_all-segments k u (x ∷ sdu) s ready (omega (arith, e, fits)))
