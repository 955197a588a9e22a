-- ===== src/Mac/Rach/Handshake.antt =====
-- stack/core/src/ue_node.cpp and stack/core/src/bs_node.cpp, where they hand a random access message
-- to `RachUe` or `RachBs`; then the exchange of the four messages between the two ends.
use aether_stack.Base.{
  ℕ, ◌+◌, ◌*◌, ◌/◌, ◌^◌, ◌<◌, ◌≡◌, refl, List, [], ◌∷◌, ◌++◌, Option, some, true, false, ltb, leb,
  ◌==◌, if◌then◌else◌, length, get_or, bit_and, bit_or, u8, u16, arith, Bool-cases, inl, inr,
}
use aether_stack.Base.Bits.{bit_and_mask, word_of_bytes}
use aether_stack.Mac.Rach.{
  msg1_prach, msg2_rar, msg3_rrc_req, msg4_contention_resolve, msg_byte, cell_for_preamble,
  ra_rnti_for_preamble, connected, idle, Output, sends, moves, hands_ccch,
}
use aether_stack.Mac.Rach.Ue.{RachUe, start_rach, on_rar_received, on_contention_resolve}
use aether_stack.Mac.Rach.Bs.{
  UeContext, RachBs, find_context, put_context, on_prach_received, on_msg3_received, find_ue,
}

-- `payload[i] | (payload[i + 1] << 8)`
abbrev pub word_at : List ℕ → ℕ → ℕ
word_at payload i = u16 (bit_or (get_or payload i 0) (get_or payload (i + 1) 0 * 2 ^ 8))

-- A message in the air reaches the base station.
unfoldable pub hear_bs : RachBs → Output → RachBs × List Output
hear_bs s (sends msg1_prach payload) =
    if leb 2 (length payload) then on_prach_received s (get_or payload 1 0) else (s, [])
hear_bs s (sends msg3_rrc_req payload) =
    if leb 4 (length payload) then on_msg3_received s (word_at payload 1) payload else (s, [])
hear_bs s (sends msg2_rar payload) = (s, [])
hear_bs s (sends msg4_contention_resolve payload) = (s, [])
hear_bs s (moves old new) = (s, [])
hear_bs s (hands_ccch crnti ccch) = (s, [])

-- A message in the air reaches the terminal, whose provider of MSG3's payload returns `provided`.
-- The node's own copy of the C-RNTI is left out, as is its test that the terminal waits for this
-- message, which the terminal makes itself; a message carries its type and no frame type besides.
unfoldable pub hear_ue : Option (List ℕ) → RachUe → Output → RachUe × List Output
hear_ue provided u (sends msg2_rar payload) =
    if leb 5 (length payload) then on_rar_received u (word_at payload 1) provided else (u, [])
hear_ue provided u (sends msg4_contention_resolve payload) =
    if leb 5 (length payload)
    then on_contention_resolve u (word_at payload 1) (word_at payload 3)
    else (u, [])
hear_ue provided u (sends msg1_prach payload) = (u, [])
hear_ue provided u (sends msg3_rrc_req payload) = (u, [])
hear_ue provided u (moves old new) = (u, [])
hear_ue provided u (hands_ccch crnti ccch) = (u, [])

-- What one end sends reaches the other, in order.
unfoldable pub hear_all :
    {S : Type 0} → (S → Output → S × List Output) → S → List Output → S × List Output
hear_all hear s [] = (s, [])
hear_all hear s (o ∷ os) =
    let (t, ps) = hear s o in let (u, qs) = hear_all hear t os in (u, ps ++ qs)

-- A procedure from its start, with each message heard at the other end.
unfoldable pub exchange : Option (List ℕ) → RachUe → RachBs → RachUe × RachBs
unfolding hear_all
exchange provided u s =
    let (u1, out1) = start_rach u in
    let (s1, out2) = hear_all hear_bs s out1 in
    let (u2, out3) = hear_all (hear_ue provided) u1 out2 in
    let (s2, out4) = hear_all hear_bs s1 out3 in
    let (u3, out5) = hear_all (hear_ue provided) u2 out4 in (u3, s2)

word_lem :
    (r : ℕ)
    → r < 65536
    → u16 (bit_or (u8 (bit_and r 0xff)) (u8 (bit_and (r / 2 ^ 8) 0xff) * 2 ^ 8)) ≡ r
word_lem r h =
    rw (word_of_bytes (u8 (bit_and r 0xff)) (u8 (bit_and (r / 2 ^ 8) 0xff)) (omega arith))
      (omega (arith, bit_and_mask 8 r, bit_and_mask 8 (r / 2 ^ 8)))

==_refl : (n : ℕ) → (n == n) ≡ true
==_refl n = ground arith

find_context-put_context :
    (cs : List UeContext) (c : UeContext) → find_context (put_context cs c) c.ra_rnti ≡ some c
unfolding find_context put_context
find_context-put_context [] c = rw (==_refl c.ra_rnti) refl
find_context-put_context (x ∷ cs) c = elim (Bool-cases (x.ra_rnti == c.ra_rnti)) [
  | inl here ↦ rw (here, ==_refl c.ra_rnti) refl
  | inr there ↦ rw (there, there) (find_context-put_context cs c)
]

ra_rnti_small : (p : ℕ) → ra_rnti_for_preamble p < 65536
ra_rnti_small p = unfold ra_rnti_for_preamble in omega arith

-- The two ends agree on the identity that was granted.
unfoldable pub Connects : RachUe → RachBs → RachUe × RachBs → Type 0
Connects u s r =
    (r.0.state ≡ connected)
    × (r.0.assigned_crnti ≡ s.next_crnti)
    × (find_ue r.1 (ra_rnti_for_preamble u.preamble_index)
        ≡ some (record {
          ra_rnti = ra_rnti_for_preamble u.preamble_index;
          c_rnti = s.next_crnti;
          preamble = u.preamble_index;
          rach_complete = true;
        }))

-- An idle terminal that draws a preamble of the station's cell, and whose MSG3 carries at least one
-- byte, is connected after the four messages, with the C-RNTI that the station was to grant next;
-- the station's context of the preamble is complete and holds the same C-RNTI.
-- (The C-RNTI to be granted fits 16 bits.)
pub exchange-Connects :
    (u : RachUe) (s : RachBs) (b : ℕ) (ccch : List ℕ)
    → u.state ≡ idle
    → cell_for_preamble u.preamble_index ≡ s.cell_id
    → s.next_crnti < 65536
    → Connects u s (exchange (some (b ∷ ccch)) u s)
unfolding exchange start_rach hear_all hear_bs hear_ue on_prach_received on_rar_received
    on_msg3_received on_contention_resolve Connects find_ue
exchange-Connects u s b ccch free own small =
    let r = ra_rnti_for_preamble u.preamble_index in
    let waiting : UeContext = record {
      ra_rnti = r;
      c_rnti = 0;
      preamble = u.preamble_index;
      rach_complete = false;
    } in
    let served : UeContext = record waiting { c_rnti = s.next_crnti; rach_complete = true } in
    rw
      (
        free,
        own,
        ==_refl s.cell_id,
        word_lem r (ra_rnti_small u.preamble_index),
        ==_refl r,
        four (msg_byte msg3_rrc_req) (u8 (bit_and r 0xff)) (u8 (bit_and (r / 2 ^ 8) 0xff)) b ccch,
        word_lem r (ra_rnti_small u.preamble_index),
        find_context-put_context s.ue_contexts waiting,
        three (msg_byte msg3_rrc_req) (u8 (bit_and r 0xff)) (u8 (bit_and (r / 2 ^ 8) 0xff)) b ccch,
        word_lem r (ra_rnti_small u.preamble_index),
        ==_refl r,
        word_lem s.next_crnti small,
        find_context-put_context (put_context s.ue_contexts waiting) served,
      )
      (refl, refl, refl)
  where
    four : (x y z b : ℕ) (l : List ℕ) → leb 4 (length (x ∷ y ∷ z ∷ b ∷ l)) ≡ true
    four x y z b l = ground arith

    three : (x y z b : ℕ) (l : List ℕ) → ltb 3 (length (x ∷ y ∷ z ∷ b ∷ l)) ≡ true
    three x y z b l = ground arith
