-- ===== src/Core/Harq/Rx/Crash.antt =====
-- The frames that end the receiver: the exception for a wrapped length is not the one that
-- `link_decode_bits` catches.
use aether_stack.Base.{
  ℕ, zero, suc, ◌+◌, ◌*◌, ◌%◌, ◌<◌, ◌≤◌, min, ◌≡◌, ◌↔◌, refl, ap, List, [], ◌∷◌, Option, none, some,
  false, length, take, drop, ltb, ◌==◌, arith, length-take, length-drop, Bool-cases, inl, inr, ◌≢◌,
}
use aether_stack.Phy.Fec.BitOrder.{bytes_to_bits, bits_to_bytes}
use aether_stack.Phy.Fec.BitOrder.RoundTrip.{length-bytes_to_bits}
use aether_stack.Phy.Fec.Viterbi.{Decoded, fec_decode}
use aether_stack.Phy.Fec.Viterbi.Decode.{fec_decode_throws}
use aether_stack.Core.Harq.Wire.{
  Header, header_size, unpack, valid_coded_bits, Verdict, verdict, escaped, link_decode_bits,
  decode_result, verify_block,
}
use aether_stack.Core.Harq.Rx.{
  HarqRx, crashed, combine, combines, merged, after_decode, receive_block, receive_header, receive,
  slot,
}

length-combine : (n : ℕ) (rx kept : List ℕ) → length (combine n rx kept) ≡ length rx
unfolding combine
length-combine zero rx kept = refl
length-combine (suc n) [] kept = refl
length-combine (suc n) (x ∷ rx) [] = refl
length-combine (suc n) (x ∷ rx) (y ∷ kept) = ap suc (length-combine n rx kept)

length-merged : (s : HarqRx) (h : Header) (rx : List ℕ) → length (merged s h rx) ≡ length rx
unfolding merged
length-merged s h rx = elim (Bool-cases (combines s h rx)) [
  | inl e ↦ rw e (length-combine _ rx (slot s h.proc).bits)
  | inr e ↦ rw e refl
]

verify_block_returns : (o : Option (List ℕ)) (old : List ℕ) → verify_block o old ≢ escaped
unfolding verify_block
verify_block_returns none old e = cc
verify_block_returns (some block) old e = cc

decode_result_escapes :
    (d : Decoded) (info_len : ℕ) (old : List ℕ)
    → (decode_result d info_len old ≡ escaped) ↔ (d ≡ Decoded.length_error)
unfolding decode_result
decode_result_escapes Decoded.invalid_argument info_len old = (λ e. cc, λ e. cc)
decode_result_escapes Decoded.length_error info_len old = (λ e. refl, λ e. refl)
decode_result_escapes (Decoded.ok info) info_len old = (forward, λ e. cc)
  where
    forward :
        decode_result (Decoded.ok info) info_len old ≡ escaped
        → Decoded.ok info ≡ Decoded.length_error
    forward e = elim (Bool-cases (length info == info_len * 8)) [
      | inl same ↦ absurd (verify_block_returns (bits_to_bytes info) old (rw same at e))
      | inr other ↦ cc (rw other at e)
    ]

after_decode_crashes :
    (s : HarqRx) (h : Header) (bits : List ℕ) (v : Verdict)
    → (after_decode s h bits v ≡ crashed) ↔ (v ≡ escaped)
unfolding after_decode
after_decode_crashes s h bits (verdict d mac_pdu) = (λ e. cc, λ e. cc)
after_decode_crashes s h bits escaped = (λ e. refl, λ e. refl)

abbrev trimmed : HarqRx → Header → List ℕ → List ℕ
trimmed s h rx = take (min (length rx) (valid_coded_bits h)) (merged s h rx)

length-trimmed :
    (s : HarqRx) (h : Header) (rx : List ℕ)
    → length (trimmed s h rx) ≡ min (length rx) (16 * h.info_len + 12)
unfolding valid_coded_bits
length-trimmed s h rx = omega (
  arith,
  length-take (min (length rx) (valid_coded_bits h)) (merged s h rx),
  length-merged s h rx,
)

length-octets :
    (h : Header) (f : List ℕ)
    → header_size + h.len ≤ length f
    → length (bytes_to_bits (take h.len (drop header_size f))) ≡ 8 * h.len
length-octets h f fits = omega (
  arith,
  length-bytes_to_bits (take h.len (drop header_size f)),
  length-take h.len (drop header_size f),
  length-drop header_size f,
)

one_byte :
    (n i m : ℕ) → m ≡ min (8 * n) (16 * i + 12) → ((m % 2 ≡ 0) × (0 < m) × (m < 12)) ↔ (n ≡ 1)
one_byte n i m e = (λ h. omega arith, λ h. omega arith)

receive_block_crashes :
    (s : HarqRx) (h : Header) (rx : List ℕ)
    → length rx ≡ 8 * h.len
    → (receive_block s h rx ≡ crashed) ↔ (h.len ≡ 1)
receive_block_crashes s h rx e =
    let bits = trimmed s h rx in
    let size : length bits ≡ min (8 * h.len) (16 * h.info_len + 12) =
      omega (arith, length-trimmed s h rx, e) in
    let a = after_decode_crashes s h bits (link_decode_bits bits h.info_len []) in
    let b = decode_result_escapes (fec_decode bits none) h.info_len [] in
    let c = (fec_decode_throws bits none).1 in
    let d = one_byte h.len h.info_len (length bits) size in
    unfold receive_block link_decode_bits in
    (λ r. d.0 (c.0 (b.0 (a.0 r))), λ r. a.1 (b.1 (c.1 (d.1 r))))

-- Whatever the receiver holds, a complete frame ends it by an exception exactly when the header
-- announces one coded byte.
pub receive_crashes_iff :
    (s : HarqRx) (f : List ℕ) (h : Header)
    → unpack f ≡ some h
    → header_size + h.len ≤ length f
    → (receive s f ≡ crashed) ↔ (h.len ≡ 1)
receive_crashes_iff s f h e fits =
    unfold receive receive_header in
    rw e
      (rw (complete (length f) h.len fits) (receive_block_crashes s h _ (length-octets h f fits)))
  where
    complete : (m n : ℕ) → header_size + n ≤ m → ltb m (header_size + n) ≡ false
    complete m n k = ground arith
