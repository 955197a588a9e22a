-- ===== src/Rlc/Um/Reassembly.antt =====
-- The segments of an SDU, taken in order, give the SDU again.
use aether_stack.Base.{
  ap₂, length-take, length-drop, ℕ, some, sub16, bit_and, bit_or, u8, ◌*◌, ◌^◌, sym, zero, suc, ◌+◌,
  ◌-◌, ◌/◌, ◌≤◌, ◌<◌, ◌≡◌, refl, ap, ◌∙◌, List, [], ◌∷◌, ◌++◌, true, false, length, take, drop, ltb,
  ◌==◌, arith, append_assoc, u16,
}
use aether_stack.Base.Bits.{bit_and_mask, word_of_bytes}
use aether_stack.Rlc.Um.Seen.{Below, insert_seen-Below, append-Below, bounded-Below}
use aether_stack.Rlc.Um.{
  UmTx, UmRx, um_fi_complete, um_fi_first, um_fi_last, um_fi_middle, um_fi_mask, fi_of,
  segment_bytes, tx_loop, segments_of, tx, accept_in_order, ahead, deliver_loop, deliver_ready,
  bounded, rx_new, rx_seen, rx,
}

-- PDUs that arrive one after the other, all at one time.
unfoldable pub rx_all : UmRx → ℕ → List (List ℕ) → UmRx
rx_all s now_ms [] = s
rx_all s now_ms (pdu ∷ pdus) = rx_all (rx s now_ms pdu) now_ms pdus

-- The receiver waits for `sn`, has seen only what is below, and holds nothing back.
abbrev pub InStep : UmRx → ℕ → Type 0
InStep s sn = (s.vr_next ≡ sn) × Below sn s.seen × (s.buffer ≡ []) × (0 < s.cfg.window)

pub take-drop : (n : ℕ) (xs : List ℕ) → take n xs ++ drop n xs ≡ xs
take-drop zero xs = refl
take-drop (suc n) [] = refl
take-drop (suc n) (x ∷ xs) = ap (λ l. x ∷ l) (take-drop n xs)

eq_true : (a b : ℕ) → a ≡ b → (a == b) ≡ true
eq_true a b h = ground (arith, h)

eq_false : (a b : ℕ) → a < b → (a == b) ≡ false
eq_false a b h = ground (arith, h)

eq_zero : (a : ℕ) → 1 ≤ a → (a == 0) ≡ false
eq_zero a h = ground (arith, h)

lt_true : (a b : ℕ) → a < b → ltb a b ≡ true
lt_true a b h = ground (arith, h)

lt_false : (a b : ℕ) → b ≤ a → ltb a b ≡ false
lt_false a b h = ground (arith, h)

pub fi_middle :
    (seg segments : ℕ) → 1 ≤ seg → seg + 1 < segments → fi_of seg segments ≡ um_fi_middle
unfolding fi_of
fi_middle seg segments h k =
    rw (lt_true 1 segments (omega arith), eq_zero seg h, eq_false seg (segments - 1) (omega arith))
      refl

pub fi_last : (seg segments : ℕ) → 1 ≤ seg → seg + 1 ≡ segments → fi_of seg segments ≡ um_fi_last
unfolding fi_of
fi_last seg segments h k =
    rw
      (
        lt_true 1 segments (omega (arith, k)),
        eq_zero seg h,
        eq_true seg (segments - 1) (omega (arith, k)),
      )
      refl

pub fi_first : (segments : ℕ) → 1 < segments → fi_of 0 segments ≡ um_fi_first
unfolding fi_of
fi_first segments h = rw (lt_true 1 segments h) refl

pub bytes_inner :
    (m seg segments : ℕ) (left : List ℕ)
    → seg + 1 < segments
    → segment_bytes m seg segments left ≡ take m left
unfolding segment_bytes
bytes_inner m seg segments left h = rw (eq_false seg (segments - 1) (omega arith)) refl

pub bytes_last :
    (m seg segments : ℕ) (left : List ℕ)
    → seg + 1 ≡ segments
    → segment_bytes m seg segments left ≡ left
unfolding segment_bytes
bytes_last m seg segments left h = rw (eq_true seg (segments - 1) (omega (arith, h))) refl

-- The receiver behind a PDU that it waited for, before what its position does.
abbrev noted : UmRx → ℕ → UmRx
noted s sn = record s { seen = bounded (s.seen ++ (sn ∷ [])) }

abbrev pdu_of : ℕ → ℕ → List ℕ → List ℕ
pdu_of fi sn payload = fi ∷ u8 (bit_and sn 0xff) ∷ u8 (bit_and (sn / 2 ^ 8) 0xff) ∷ payload

sn_read :
    (sn : ℕ)
    → sn < 2 ^ 16
    → u16 (bit_or (u8 (bit_and sn 0xff)) (u8 (bit_and (sn / 2 ^ 8) 0xff) * 2 ^ 8)) ≡ sn
sn_read sn h =
    let lo = bit_and_mask 8 sn in
    let hi = bit_and_mask 8 (sn / 2 ^ 8) in
    ap u16 (word_of_bytes (u8 (bit_and sn 0xff)) (u8 (bit_and (sn / 2 ^ 8) 0xff)) (omega arith))
    ∙ omega (arith, lo, hi, h)

ahead_zero :
    (s : UmRx) (sn : ℕ) → s.vr_next ≡ sn → 0 < s.cfg.window → sn < 2 ^ 16 → ahead s sn ≡ some 0
unfolding ahead
ahead_zero s sn e w h =
    let none_between : sub16 sn s.vr_next ≡ 0 = omega (arith, e, h) in
    let inside : ltb 0 s.cfg.window ≡ true = ground (arith, w) in rw (none_between, inside) refl

deliver_nothing : (s : UmRx) → s.buffer ≡ [] → deliver_ready s ≡ record s { timer_running = false }
unfolding deliver_ready deliver_loop
deliver_nothing s h = rw h refl

-- A PDU that the receiver waits for is taken by its position.
rx-pdu_of :
    (s : UmRx) (now_ms fi sn : ℕ) (payload : List ℕ)
    → InStep s sn
    → sn < 2 ^ 16
    → bit_and fi um_fi_mask ≡ fi
    → 0 < length payload
    → (accept_in_order (noted s sn) fi payload).buffer ≡ []
    → rx s now_ms (pdu_of fi sn payload)
      ≡ record (accept_in_order (noted s sn) fi payload) { timer_running = false }
unfolding rx rx_seen rx_new
rx-pdu_of s now_ms fi sn [] step h position some_byte empty = absurd (omega arith)
rx-pdu_of s now_ms fi sn (d ∷ payload) step h position some_byte empty =
    rw (sn_read sn h, position, insert_seen-Below sn s.seen step.1, ahead_zero s sn step.0 step.3 h)
      (deliver_nothing (accept_in_order (noted s sn) fi (d ∷ payload)) empty)

-- The receiver behind a PDU, and what the position of a segment changes.
abbrev advanced : UmRx → ℕ → UmRx
advanced s sn = record (noted s sn) { vr_next = u16 (s.vr_next + 1); timer_running = false }

advanced-InStep :
    (s : UmRx) (sn : ℕ) → InStep s sn → sn + 1 < 2 ^ 16 → InStep (advanced s sn) (sn + 1)
advanced-InStep s sn step h = (
  omega (arith, step.0),
  bounded-Below (sn + 1) (s.seen ++ (sn ∷ [])) (append-Below sn s.seen step.1),
  step.2,
  step.3,
)

module _ (s : UmRx) (now_ms sn : ℕ) (payload : List ℕ) (step : InStep s sn) (h : sn < 2 ^ 16)
    (some_byte : 0 < length payload) where
  rx_whole :
      rx s now_ms (pdu_of um_fi_complete sn payload)
      ≡ record (advanced s sn) { ready = s.ready ++ (payload ∷ []) }
  rx_whole =
      rx-pdu_of s now_ms um_fi_complete sn payload step h refl some_byte
        (unfold accept_in_order in step.2)
      ∙ unfold accept_in_order in refl

  rx_first :
      rx s now_ms (pdu_of um_fi_first sn payload)
      ≡ record (advanced s sn) { collecting = true; partial_sdu = payload }
  rx_first =
      rx-pdu_of s now_ms um_fi_first sn payload step h refl some_byte
        (unfold accept_in_order in step.2)
      ∙ unfold accept_in_order in refl

  rx_middle :
      s.collecting ≡ true
      → rx s now_ms (pdu_of um_fi_middle sn payload)
        ≡ record (advanced s sn) { partial_sdu = s.partial_sdu ++ payload }
  rx_middle c =
      rx-pdu_of s now_ms um_fi_middle sn payload step h refl some_byte
        (unfold accept_in_order in simp c step.2)
      ∙ unfold accept_in_order in simp c refl

  rx_last :
      s.collecting ≡ true
      → rx s now_ms (pdu_of um_fi_last sn payload) ≡ record (advanced s sn) {
        ready = s.ready ++ ((s.partial_sdu ++ payload) ∷ []);
        collecting = false;
        partial_sdu = [];
      }
  rx_last c =
      rx-pdu_of s now_ms um_fi_last sn payload step h refl some_byte
        (unfold accept_in_order in simp c step.2)
      ∙ unfold accept_in_order in simp c refl

-- One PDU, and then the others.
rx_all-tx_loop :
    (n seg segments : ℕ) (t : UmTx) (left : List ℕ) (s : UmRx) (now_ms fi : ℕ) (payload : List ℕ)
    → fi_of seg segments ≡ fi
    → segment_bytes t.cfg.max_pdu_payload seg segments left ≡ payload
    → rx_all s now_ms (tx_loop (suc n) seg segments t left).1
      ≡ rx_all
          (rx s now_ms (pdu_of fi t.next_sn payload))
          now_ms
          (tx_loop n
            (seg + 1)
            segments
            (record t { next_sn = u16 (t.next_sn + 1) })
            (drop t.cfg.max_pdu_payload left)).1
unfolding rx_all tx_loop
rx_all-tx_loop n seg segments t left s now_ms fi payload e f =
    let u : UmTx = record t { next_sn = u16 (t.next_sn + 1) } in
    ap
      (λ p.
        rx_all (rx s now_ms p) now_ms
          (tx_loop n (seg + 1) segments u (drop t.cfg.max_pdu_payload left)).1)
      (ap₂ (λ x y. pdu_of x t.next_sn y) e f)

no_more :
    (seg segments : ℕ) (t : UmTx) (left : List ℕ) (s : UmRx) (now_ms : ℕ)
    → rx_all s now_ms (tx_loop 0 seg segments t left).1 ≡ s
unfolding rx_all tx_loop
no_more seg segments t left s now_ms = refl

-- A segment that others follow is full, and leaves bytes for them.
some_taken : (n m : ℕ) (left : List ℕ) → 0 < m → suc n * m < length left → 0 < length (take m left)
some_taken n m left h k =
    let full : 0 < length left = omega (arith, k) in omega (arith, length-take m left, h, full)

left_over : (n m : ℕ) (left : List ℕ) → suc n * m < length left → n * m < length (drop m left)
left_over n m left k =
    let split : suc n * m ≡ n * m + m = grind arith in omega (arith, length-drop m left, k, split)

-- The segments after the first.
ready-rest :
    (n seg segments : ℕ) (t : UmTx) (left : List ℕ) (s : UmRx) (now_ms : ℕ)
    → 1 ≤ seg
    → seg + suc n ≡ segments
    → InStep s t.next_sn
    → t.next_sn + suc n ≤ 2 ^ 16
    → 0 < t.cfg.max_pdu_payload
    → n * t.cfg.max_pdu_payload < length left
    → s.collecting ≡ true
    → (rx_all s now_ms (tx_loop (suc n) seg segments t left).1).ready
      ≡ s.ready ++ ((s.partial_sdu ++ left) ∷ [])
ready-rest zero seg segments t left s now_ms h e step room m full c =
    let u : UmTx = record t { next_sn = u16 (t.next_sn + 1) } in
    ap (λ x. x.ready)
      (rx_all-tx_loop 0 seg segments t left s now_ms um_fi_last left
          (fi_last seg segments h (omega (arith, e)))
          (bytes_last t.cfg.max_pdu_payload seg segments left (omega (arith, e)))
        ∙ no_more (seg + 1) segments u (drop t.cfg.max_pdu_payload left)
            (rx s now_ms (pdu_of um_fi_last t.next_sn left)) now_ms
        ∙ rx_last s now_ms t.next_sn left step (omega (arith, room)) (omega (arith, full)) c)
ready-rest (suc n) seg segments t left s now_ms h e step room m full c =
    let maxp = t.cfg.max_pdu_payload in
    let piece = take maxp left in
    let behind = drop maxp left in
    let u : UmTx = record t { next_sn = u16 (t.next_sn + 1) } in
    let next : u.next_sn ≡ t.next_sn + 1 = omega (arith, room) in
    let r : UmRx = record (advanced s t.next_sn) { partial_sdu = s.partial_sdu ++ piece } in
    let ready : InStep r (t.next_sn + 1) = advanced-InStep s t.next_sn step (omega (arith, room)) in
    ap (λ x. x.ready)
      (rx_all-tx_loop (suc n) seg segments t left s now_ms um_fi_middle piece
          (fi_middle seg segments h (omega (arith, e)))
          (bytes_inner maxp seg segments left (omega (arith, e)))
        ∙ ap (λ x. rx_all x now_ms (tx_loop (suc n) (seg + 1) segments u behind).1)
            (rx_middle s now_ms t.next_sn piece step (omega (arith, room))
              (some_taken n maxp left m full) c))
    ∙ ready-rest n (seg + 1) segments u behind r now_ms (omega arith) (omega (arith, e))
        (ready.0 ∙ sym next, rw next ready.1, ready.2, ready.3) (omega (arith, next, room)) m
        (left_over n maxp left full) c
    ∙ ap (λ l. s.ready ++ (l ∷ []))
        (append_assoc s.partial_sdu piece behind
          ∙ ap (λ l. s.partial_sdu ++ l) (take-drop maxp left))

ready-tx_loop :
    (n : ℕ) (t : UmTx) (sdu : List ℕ) (s : UmRx) (now_ms : ℕ)
    → InStep s t.next_sn
    → t.next_sn + suc n ≤ 2 ^ 16
    → 0 < t.cfg.max_pdu_payload
    → n * t.cfg.max_pdu_payload < length sdu
    → (rx_all s now_ms (tx_loop (suc n) 0 (suc n) t sdu).1).ready ≡ s.ready ++ (sdu ∷ [])
ready-tx_loop zero t sdu s now_ms step room m full =
    let u : UmTx = record t { next_sn = u16 (t.next_sn + 1) } in
    ap (λ x. x.ready)
      (rx_all-tx_loop 0 0 1 t sdu s now_ms um_fi_complete sdu (unfold fi_of in refl)
          (unfold segment_bytes in refl)
        ∙ no_more 1 1 u (drop t.cfg.max_pdu_payload sdu)
            (rx s now_ms (pdu_of um_fi_complete t.next_sn sdu)) now_ms
        ∙ rx_whole s now_ms t.next_sn sdu step (omega (arith, room)) (omega (arith, full)))
ready-tx_loop (suc n) t sdu s now_ms step room m full =
    let maxp = t.cfg.max_pdu_payload in
    let segments = suc (suc n) in
    let piece = take maxp sdu in
    let behind = drop maxp sdu in
    let u : UmTx = record t { next_sn = u16 (t.next_sn + 1) } in
    let next : u.next_sn ≡ t.next_sn + 1 = omega (arith, room) in
    let r : UmRx = record (advanced s t.next_sn) { collecting = true; partial_sdu = piece } in
    let ready : InStep r (t.next_sn + 1) = advanced-InStep s t.next_sn step (omega (arith, room)) in
    ap (λ x. x.ready)
      (rx_all-tx_loop (suc n) 0 segments t sdu s now_ms um_fi_first piece
          (fi_first segments (omega arith)) (bytes_inner maxp 0 segments sdu (omega arith))
        ∙ ap (λ x. rx_all x now_ms (tx_loop (suc n) 1 segments u behind).1)
            (rx_first s now_ms t.next_sn piece step (omega (arith, room))
              (some_taken n maxp sdu m full)))
    ∙ ready-rest n 1 segments u behind r now_ms (omega arith) (omega arith)
        (ready.0 ∙ sym next, rw next ready.1, ready.2, ready.3) (omega (arith, next, room)) m
        (left_over n maxp sdu full) refl
    ∙ ap (λ l. s.ready ++ (l ∷ [])) (take-drop maxp sdu)

-- The PDUs that `tx` makes of an SDU, whatever its length and the size of a PDU, bring out exactly
-- that SDU at a receiver that takes them in their order, behind the SDUs that were ready and whatever
-- it was collecting. (The SDU is not empty, a PDU holds at least one byte, the receiver has a window,
-- waits for the next number, has seen only numbers below and holds nothing back, and the numbers of
-- the SDU do not wrap around.)
pub ready-tx :
    (t : UmTx) (s : UmRx) (now_ms : ℕ) (sdu : List ℕ)
    → 0 < length sdu
    → 0 < t.cfg.max_pdu_payload
    → InStep s t.next_sn
    → t.next_sn + segments_of t.cfg.max_pdu_payload (length sdu) ≤ 2 ^ 16
    → (rx_all s now_ms (tx t sdu).1).ready ≡ s.ready ++ (sdu ∷ [])
unfolding tx
ready-tx t s now_ms [] h m step room = absurd (omega arith)
ready-tx t s now_ms (b ∷ sdu) h m step room =
    let n = segments_of t.cfg.max_pdu_payload (length (b ∷ sdu)) in
    counted n (n - 1) (some_segment (length sdu) t.cfg.max_pdu_payload m) room
      (unfold segments_of in pdu_count (length sdu) t.cfg.max_pdu_payload m)
  where
    at_least : (k m : ℕ) → 0 < m → 1 ≤ (suc k + m - 1) / m
    at_least k m h = grind arith

    some_segment : (k m : ℕ) → 0 < m → segments_of m (suc k) ≡ suc (segments_of m (suc k) - 1)
    some_segment k m h = unfold segments_of in omega (arith, at_least k m h)

    pdu_count : (k m : ℕ) → 0 < m → (n : ℕ) → (suc k + m - 1) / m ≡ suc n → n * m < suc k
    pdu_count k m h n e = grind arith

    counted :
        (n k : ℕ)
        → n ≡ suc k
        → t.next_sn + n ≤ 2 ^ 16
        → ((j : ℕ) → n ≡ suc j → j * t.cfg.max_pdu_payload < length (b ∷ sdu))
        → (rx_all s now_ms (tx_loop n 0 n t (b ∷ sdu)).1).ready ≡ s.ready ++ ((b ∷ sdu) ∷ [])
    counted n k e fits full =
        rw e (ready-tx_loop k t (b ∷ sdu) s now_ms step (omega (arith, e, fits)) m (full k e))
