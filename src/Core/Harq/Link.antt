-- ===== src/Core/Harq/Link.antt =====
-- The round trip of a transport block through `link_encode`, the wire and `link_decode_bits`.
use aether_stack.Base.{
  append-nil, snoc, ℕ, zero, suc, ◌+◌, ◌*◌, ◌/◌, ◌%◌, ◌^◌, ◌<◌, ◌≤◌, ◌≡◌, refl, sym, ap, ap₂, ◌∙◌,
  List, [], ◌∷◌, ◌++◌, none, some, true, false, map, bit_and, bit_or, length, replicate, u8, u16,
  ◌==◌, if◌then◌else◌, arith, length-append, IsBytes, AllBits, append-AllBits,
}
use aether_stack.Base.Bits.{bit_and_mask, word_of_bytes, eq_below, checks}
use aether_stack.Phy.Fec.BitOrder.{bytes_to_bits, truth}
use aether_stack.Phy.Fec.BitOrder.RoundTrip.{length-bytes_to_bits, bits_to_bytes-bytes_to_bits}
use aether_stack.Phy.Fec.BitOrder.Group.{
  bytes_to_bits-AllBits, Grouped, grouped, bits_to_bytes-Grouped,
}
use aether_stack.Phy.Fec.Crc.{crc_attach}
use aether_stack.Phy.Fec.Crc.Attach.{length-crc_attach, crc_attach-IsBytes, verify-crc_attach}
use aether_stack.Phy.Fec.Trellis.{next_state, emit_all, fec_encode}
use aether_stack.Phy.Fec.Trellis.Tables.{lands}
use aether_stack.Phy.Fec.Viterbi.{inf, Decoded, fec_decode}
use aether_stack.Phy.Fec.Viterbi.Decode.{
  fec_encode-codeword, length-emit_all, fec_decode-fec_encode,
}
use aether_stack.Core.Harq.Wire.{
  Header, pack, unpack, pad_loop, frame, link_encode, verdict, link_decode_bits,
}

abbrev pub HeaderFits : Header → Type 0
HeaderFits h = (h.proc < 128) × (h.ndi < 2) × (h.len < 2 ^ 16) × (h.info_len < 2 ^ 16)

proc_back :
    (ndi : ℕ)
    → ndi < 2
    → (proc : ℕ) → proc < 128
    → (bit_and (u8 (bit_or (bit_and proc 0x7f) (if ndi == 0 then 0 else 0x80))) 0x7f ≡ proc)
      × (bit_and (u8 (bit_or (bit_and proc 0x7f) (if ndi == 0 then 0 else 0x80)) / 2 ^ 7) 1 ≡ ndi)
proc_back zero h proc lt = (
  eq_below 128 (λ p. bit_and (u8 (bit_or (bit_and p 0x7f) 0)) 0x7f) (λ p. p) (unfold checks in refl)
      proc lt,
  eq_below 128 (λ p. bit_and (u8 (bit_or (bit_and p 0x7f) 0) / 2 ^ 7) 1) (λ p. 0)
      (unfold checks in refl) proc lt,
)
proc_back (suc zero) h proc lt = (
  eq_below 128 (λ p. bit_and (u8 (bit_or (bit_and p 0x7f) 0x80)) 0x7f) (λ p. p)
      (unfold checks in refl) proc lt,
  eq_below 128 (λ p. bit_and (u8 (bit_or (bit_and p 0x7f) 0x80) / 2 ^ 7) 1) (λ p. 1)
      (unfold checks in refl) proc lt,
)
proc_back (suc (suc n)) h proc lt = absurd (omega arith)

word_back :
    (w : ℕ)
    → w < 2 ^ 16
    → u16 (bit_or (u8 (bit_and w 0xff)) (u8 (bit_and (w / 2 ^ 8) 0xff) * 2 ^ 8)) ≡ w
word_back w h = omega (
  arith,
  word_of_bytes (u8 (bit_and w 0xff)) (u8 (bit_and (w / 2 ^ 8) 0xff)) (omega arith),
  bit_and_mask 8 w,
  bit_and_mask 8 (w / 2 ^ 8),
)

-- A header in range is read back from a frame that begins with it.
pub unpack-pack : (h : Header) (coded : List ℕ) → HeaderFits h → unpack (pack h ++ coded) ≡ some h
unfolding unpack pack
unpack-pack h coded fits =
    rw
      (
        (proc_back h.ndi fits.1 h.proc fits.0).0,
        (proc_back h.ndi fits.1 h.proc fits.0).1,
        word_back h.len fits.2,
        word_back h.info_len fits.3,
      )
      (ground arith)

emit_all-AllBits : (s : ℕ) (is : List ℕ) → s < 64 → AllBits is → AllBits (emit_all s is).0
unfolding emit_all
emit_all-AllBits s [] h k = tt
emit_all-AllBits s (i ∷ is) h k =
    let l = lands s i h k.0 in (l.2, (l.3, emit_all-AllBits (next_state s i) is l.0 k.1))

map-truth : (bits : List ℕ) → AllBits bits → map truth bits ≡ bits
map-truth [] h = refl
map-truth (b ∷ bits) h = ap₂ ◌∷◌ (ground arith) (map-truth bits h.1)

fec_encode-AllBits : (bits : List ℕ) → AllBits bits → AllBits (fec_encode bits)
fec_encode-AllBits bits h =
    rw (fec_encode-codeword bits, map-truth bits h)
      (emit_all-AllBits 0 (bits ++ replicate 6 0) (omega arith)
        (append-AllBits bits (replicate 6 0) h (omega arith)))

length-fec_encode :
    (bits : List ℕ) → AllBits bits → length (fec_encode bits) ≡ 2 * (length bits + 6)
length-fec_encode bits h =
    rw (fec_encode-codeword bits, map-truth bits h)
      (omega (arith, length-emit_all 0 (bits ++ replicate 6 0), length-append bits (replicate 6 0)))

-- The padding loop adds the fewest zeros that make whole bytes.
pub pad_loop-replicate :
    (k fuel : ℕ) (bits : List ℕ)
    → k ≤ fuel
    → k < 8
    → (length bits + k) % 8 ≡ 0
    → pad_loop fuel bits ≡ bits ++ replicate k 0
unfolding pad_loop
pad_loop-replicate zero zero bits le lt h = sym (append-nil bits)
pad_loop-replicate zero (suc fuel) bits le lt h = rw (append-nil bits) (ground arith)
pad_loop-replicate (suc k) zero bits le lt h = absurd (omega arith)
pad_loop-replicate (suc k) (suc fuel) bits le lt h = rw (unaligned (length bits) k lt h) (
    pad_loop-replicate k fuel (bits ++ 0 ∷ []) (omega arith) (omega arith)
      (omega (arith, length-append bits (0 ∷ [])))
    ∙ sym (snoc bits 0 (replicate k 0)))
  where
    unaligned : (n j : ℕ) → suc j < 8 → (n + suc j) % 8 ≡ 0 → (n % 8 == 0) ≡ false
    unaligned n j a b = ground arith

module _ (p : List ℕ) (bytes : IsBytes p) where
  block : List ℕ
  block = crc_attach p

  coded_bits : List ℕ
  coded_bits = fec_encode (bytes_to_bits block)

  length-coded_bits : length coded_bits ≡ 16 * length p + 44
  unfolding coded_bits block
  length-coded_bits = omega (
    arith,
    length-fec_encode (bytes_to_bits (crc_attach p)) (bytes_to_bits-AllBits (crc_attach p)),
    length-bytes_to_bits (crc_attach p),
    length-crc_attach p,
  )

  padded-AllBits : AllBits (coded_bits ++ replicate 4 0)
  unfolding coded_bits
  padded-AllBits =
      append-AllBits coded_bits (replicate 4 0)
        (fec_encode-AllBits (bytes_to_bits block) (bytes_to_bits-AllBits block)) (omega arith)

  octets : Grouped (coded_bits ++ replicate 4 0)
  octets =
      grouped (2 * length p + 6) (coded_bits ++ replicate 4 0) padded-AllBits
        (omega (arith, length-append coded_bits (replicate 4 0), length-coded_bits))

  length-octets : length octets.bytes ≡ 2 * length p + 6
  length-octets = omega (
    arith,
    length-bytes_to_bits octets.bytes,
    ap length octets.spells,
    length-append coded_bits (replicate 4 0),
    length-coded_bits,
  )

  encode_octets :
      (proc ndi : ℕ)
      → link_encode p proc ndi
        ≡ some (
            frame
              (record {
                proc = proc;
                ndi = ndi;
                rv = 0;
                len = u16 (length octets.bytes);
                info_len = u16 (length block);
              })
              octets.bytes)
  unfolding link_encode block coded_bits
  encode_octets proc ndi =
      rw
        (
          pad_loop-replicate 4 8 coded_bits (omega arith) (omega arith)
              (omega (arith, length-coded_bits)),
          bits_to_bytes-Grouped (coded_bits ++ replicate 4 0) octets,
        )
        refl

-- A frame that carries the transport block `p`.
pub record Sent (p : List ℕ) (proc ndi : ℕ) (f : List ℕ) : Type 0 where
  pub header : Header
  pub coded : List ℕ
  pub framed : f ≡ pack header ++ coded
  pub fits : HeaderFits header
  pub for_proc : header.proc ≡ proc
  pub for_ndi : header.ndi ≡ ndi
  pub len_eq : header.len ≡ length coded
  pub size : length coded ≡ 2 * length p + 6
  pub info_eq : header.info_len ≡ length p + 2
  pub spells : bytes_to_bits coded ≡ fec_encode (bytes_to_bits (crc_attach p)) ++ replicate 4 0

pub link_encode-Sent :
    (p : List ℕ) (proc ndi : ℕ)
    → IsBytes p
    → 2 * length p + 6 < 2 ^ 16
    → proc < 128
    → ndi < 2
    → (f : List ℕ) × (link_encode p proc ndi ≡ some f) × Sent p proc ndi f
unfolding coded_bits block
link_encode-Sent p proc ndi h small hp hn =
    (frame header (octets p h).bytes, encode_octets p h proc ndi, sent)
  where
    header : Header
    header = record {
      proc = proc;
      ndi = ndi;
      rv = 0;
      len = u16 (length (octets p h).bytes);
      info_len = u16 (length (block p h));
    }

    sent : Sent p proc ndi (frame header (octets p h).bytes)
    sent = record {
      header = header;
      coded = (octets p h).bytes;
      framed = refl;
      fits = (hp, hn, omega arith, omega arith);
      for_proc = refl;
      for_ndi = refl;
      len_eq = omega (arith, length-octets p h);
      size = length-octets p h;
      info_eq = omega (arith, length-crc_attach p);
      spells = (octets p h).spells;
    }

-- The coded bits of a transport block, received without error, decode to it.
pub link_decode_bits-fec_encode :
    (p : List ℕ) (old : List ℕ)
    → IsBytes p
    → 2 * length p + 6 < 2 ^ 16
    → link_decode_bits (fec_encode (bytes_to_bits (crc_attach p))) (length p + 2) old
      ≡ verdict true p
unfolding link_decode_bits
link_decode_bits-fec_encode p old h small =
    rw
      (decoded (bytes_to_bits (crc_attach p)) (bytes_to_bits-AllBits (crc_attach p))
        (omega (arith, length-bytes_to_bits (crc_attach p), length-crc_attach p)))
      (rw
        (
          info_size,
          bits_to_bytes-bytes_to_bits (crc_attach p) (crc_attach-IsBytes p h),
          verify-crc_attach p old,
        )
        refl)
  where
    decoded :
        (bits : List ℕ)
        → AllBits bits
        → 2 * (length bits + 6) < inf
        → fec_decode (fec_encode bits) none ≡ Decoded.ok bits
    decoded bits k few = fec_decode-fec_encode bits few ∙ ap Decoded.ok (map-truth bits k)

    info_size : (length (bytes_to_bits (crc_attach p)) == (length p + 2) * 8) ≡ true
    info_size = ground (arith, length-bytes_to_bits (crc_attach p), length-crc_attach p)

-- Whatever the process and the size, a block of bytes is encoded without an exception.
pub link_encode_returns :
    (p : List ℕ) (proc ndi : ℕ) → IsBytes p → (f : List ℕ) × (link_encode p proc ndi ≡ some f)
link_encode_returns p proc ndi h = (_, encode_octets p h proc ndi)
