-- ===== src/Core/Harq/Rx/Delivery.antt =====
-- What arrives unharmed is delivered.
use aether_stack.Base.{
  take_all, ℕ, ◌+◌, ◌*◌, ◌^◌, ◌<◌, ◌≡◌, refl, sym, ap, ap₂, ◌∙◌, List, [], ◌++◌, some, true, false,
  length, take, drop, ltb, arith, length-append, IsBytes, replicate, take-length-append,
}
use aether_stack.Phy.Fec.BitOrder.{bytes_to_bits}
use aether_stack.Phy.Fec.BitOrder.RoundTrip.{length-bytes_to_bits}
use aether_stack.Phy.Fec.Crc.{crc_attach}
use aether_stack.Phy.Fec.Trellis.{fec_encode}
use aether_stack.Core.Harq.Wire.{
  Header, header_size, pack, unpack, verdict, link_decode_bits, link_encode,
}
use aether_stack.Core.Harq.Link.{Sent, unpack-pack, link_encode-Sent, link_decode_bits-fec_encode}
use aether_stack.Core.Harq.Rx.{
  HarqRx, received, Result, remember, after_decode, receive_header, receive, reset,
}
use aether_stack.Core.Harq.Rx.Soft.{AllFit, reset-AllFit, receive_block_alone}
use aether_stack.Core.Harq.Rx.History.{AgreesFrame, AllAgree, run, run-AllFit}

some_injective {ℓ} : {A : Type ℓ} (a b : A) → some a ≡ some b → a ≡ b
some_injective a b e = cc

drop-pack : (h : Header) (coded : List ℕ) → drop header_size (pack h ++ coded) ≡ coded
unfolding pack
drop-pack h coded = refl

-- What `receive` tells of a delivered transport block.
abbrev pub delivered_result : List ℕ → ℕ → Result
delivered_result p proc = record {
  delivered = true;
  need_feedback = true;
  ack = true;
  proc = proc;
  mac_pdu = p;
}

module _ (p : List ℕ) (proc ndi : ℕ) (f : List ℕ) (sent : Sent p proc ndi f) where
  unpack-Sent : unpack f ≡ some sent.header
  unpack-Sent = rw sent.framed (unpack-pack sent.header sent.coded sent.fits)

  Sent-AgreesFrame : AgreesFrame f
  Sent-AgreesFrame h e =
      rw (← some_injective sent.header h (sym unpack-Sent ∙ e))
        (omega (arith, sent.len_eq, sent.size, sent.info_eq))

  payload_of : take sent.header.len (drop header_size f) ≡ sent.coded
  payload_of =
      ap₂ take sent.len_eq (ap (drop header_size) sent.framed ∙ drop-pack sent.header sent.coded)
      ∙ take_all sent.coded

  length-Sent : length f ≡ header_size + sent.header.len
  length-Sent = ap length sent.framed ∙ unfold pack in omega (arith, sent.len_eq)

  -- The bits of the block, without the padding.
  coded_bits : List ℕ
  coded_bits = fec_encode (bytes_to_bits (crc_attach p))

  length-coded_bits : length coded_bits ≡ 16 * sent.header.info_len + 12
  unfolding coded_bits
  length-coded_bits = omega (
    arith,
    ap length sent.spells,
    length-append (fec_encode (bytes_to_bits (crc_attach p))) (replicate 4 0),
    length-bytes_to_bits sent.coded,
    sent.size,
    sent.info_eq,
  )

  trimmed_bits : take (16 * sent.header.info_len + 12) (bytes_to_bits sent.coded) ≡ coded_bits
  unfolding coded_bits
  trimmed_bits =
      ap₂ take (sym length-coded_bits) sent.spells ∙ take-length-append coded_bits (replicate 4 0)

  module _ (s : HarqRx) (fit : AllFit s.soft) (bytes : IsBytes p)
      (small : 2 * length p + 6 < 2 ^ 16) where
    receive-Sent :
        receive s f ≡ received (delivered_result p proc) (remember s sent.header true coded_bits)
    unfolding receive receive_header
    receive-Sent =
        rw (unpack-Sent, complete (length f) sent.header.len length-Sent, payload_of)
          (receive_block_alone s sent.header (bytes_to_bits sent.coded) fit
              (omega (arith, length-bytes_to_bits sent.coded, sent.size, sent.info_eq))
            ∙ rw (trimmed_bits, sent.info_eq)
                (ap (after_decode s sent.header coded_bits) decoded ∙ told))
      where
        complete : (m n : ℕ) → m ≡ header_size + n → ltb m (header_size + n) ≡ false
        complete m n k = ground arith

        decoded : link_decode_bits coded_bits (length p + 2) [] ≡ verdict true p
        decoded = unfold coded_bits in link_decode_bits-fec_encode p [] bytes small

        told :
            after_decode s sent.header coded_bits (verdict true p)
            ≡ received (delivered_result p proc) (remember s sent.header true coded_bits)
        told =
            unfold after_decode in
            ap (λ n. received (delivered_result p n) (remember s sent.header true coded_bits))
              sent.for_proc

-- A transport block that `link_encode` frames and that arrives unharmed is delivered as it was, with
-- an ACK for its process, after any history of frames whose lengths agree, as its own do.
-- (The block is of bytes, its coded length fits 16 bits, the process is below 128 and the indicator
-- is a bit.)
pub receive-link_encode :
    (p : List ℕ) (proc ndi : ℕ) (s : HarqRx) (fs : List (List ℕ))
    → IsBytes p
    → 2 * length p + 6 < 2 ^ 16
    → proc < 128
    → ndi < 2
    → AllAgree fs
    → (f : List ℕ) × (link_encode p proc ndi ≡ some f)
      × AgreesFrame f
      × ((t : HarqRx) × (receive (run (reset s) fs) f ≡ received (delivered_result p proc) t))
receive-link_encode p proc ndi s fs bytes small hp hn before =
    let e = link_encode-Sent p proc ndi bytes small hp hn in
    (
      e.0,
      e.1,
      Sent-AgreesFrame p proc ndi e.0 e.2,
      (
        remember (run (reset s) fs) e.2.header true (coded_bits p proc ndi e.0 e.2),
        receive-Sent p proc ndi e.0 e.2 (run (reset s) fs)
            (run-AllFit (reset s) fs (reset-AllFit s) before) bytes small,
      ),
    )
