-- ===== src/App/U2u/RoundTrip.antt =====
-- A packet is read back from its bytes.
use aether_stack.Base.{
  ℕ, ◌+◌, ◌/◌, ◌^◌, ◌<◌, ◌≤◌, ◌≡◌, ◌≢◌, ◌⊎◌, refl, sym, ap, ◌∙◌, List, [], ◌∷◌, ◌++◌, some, Bool,
  true, false, not, ◌&&◌, arith, bit_and, length, length-append, get_or, take, drop, drop-add, ltb,
  ◌==◌, ==_iff, Bool-cases, inl, inr, if◌then◌else◌, u8,
}
use aether_stack.Base.Endian.{bytes32, word32, word32-bytes32}
use aether_stack.App.U2u.{
  kind_of, U2uPacket, conf_bytes, word_at, flags_byte, encode_u2u, has_flag, packet_of, bad_dst,
  decode_u2u,
}
use aether_stack.App.U2u.Flags.{Reads, flags_byte-Reads}
use aether_stack.App.U2u.Parts.{whole_of, src_part, dst_length, dst_part, behind_dst, length-whole}

module _ (p : U2uPacket) (seq_word : p.seq < 2 ^ 32) (time_word : p.timestamp_ms < 2 ^ 32)
    (conf_word : p.conf_id < 2 ^ 32) (some_src : 0 < length p.src_imsi)
    (src_fits : length p.src_imsi ≤ 32) (dst_fits : length p.dst_imsi ≤ 32)
    (to_someone : (0 < length p.dst_imsi) ⊎ (p.conf_id ≢ 0)) where
  abbrev conf : Bool
  conf = not (p.conf_id == 0)

  abbrev flags : ℕ
  flags = flags_byte p.kind conf p.end p.ack

  reads : Reads p.kind conf p.end p.ack
  reads = flags_byte-Reads p.kind conf p.end p.ack

  abbrev head : List ℕ
  head =
      0xa5
      ∷ flags
      ∷ u8 (bit_and p.seq 0xff)
      ∷ u8 (bit_and (p.seq / 2 ^ 8) 0xff)
      ∷ u8 (bit_and (p.seq / 2 ^ 16) 0xff)
      ∷ u8 (bit_and (p.seq / 2 ^ 24) 0xff)
      ∷ u8 (bit_and p.timestamp_ms 0xff)
      ∷ u8 (bit_and (p.timestamp_ms / 2 ^ 8) 0xff)
      ∷ u8 (bit_and (p.timestamp_ms / 2 ^ 16) 0xff)
      ∷ u8 (bit_and (p.timestamp_ms / 2 ^ 24) 0xff)
      ∷ length p.src_imsi
      ∷ []

  abbrev rest : List ℕ
  rest = conf_bytes p.conf_id ++ p.payload

  abbrev packet : List ℕ
  packet = whole_of head p.src_imsi p.dst_imsi rest

  encoded : encode_u2u p ≡ packet
  unfolding encode_u2u bytes32
  encoded =
      let s : u8 (length p.src_imsi) ≡ length p.src_imsi = omega (arith, src_fits) in
      let d : u8 (length p.dst_imsi) ≡ length p.dst_imsi = omega (arith, dst_fits) in rw (s, d) refl

  size : length packet ≡ 12 + length p.src_imsi + length p.dst_imsi + length rest
  size = length-whole head p.src_imsi p.dst_imsi rest refl

  conf_read : has_flag packet 0x20 ≡ conf
  unfolding has_flag
  conf_read = (reads).2

  end_read : has_flag packet 0x40 ≡ p.end
  unfolding has_flag
  end_read = (reads).3

  ack_read : has_flag packet 0x80 ≡ p.ack
  unfolding has_flag
  ack_read = (reads).4

  length-conf_bytes : length (conf_bytes p.conf_id) ≡ (if conf then 4 else 0)
  unfolding conf_bytes bytes32
  length-conf_bytes = by_conf (p.conf_id == 0)
    where
      by_conf : (b : Bool) → length (if b then [] else bytes32 p.conf_id) ≡ (if not b then 4 else 0)
      by_conf true = refl
      by_conf false = unfold bytes32 in refl

  known_end : (length p.dst_imsi == 0 && not conf) ≡ false
  known_end = elim to_someone [
    | inl some_dst ↦
        (let other : (length p.dst_imsi == 0) ≡ false = ground (arith, some_dst) in rw other refl)
    | inr in_conf ↦ elim (Bool-cases (p.conf_id == 0)) [
      | inl e ↦ absurd (in_conf ((==_iff p.conf_id 0).0 e))
      | inr e ↦ rw e (never (length p.dst_imsi == 0))
    ]
  ]
    where
      never : (b : Bool) → (b && false) ≡ false
      never true = refl
      never false = refl

  dst_good : bad_dst packet (length p.src_imsi) (length p.dst_imsi) ≡ false
  unfolding bad_dst
  dst_good =
      let short : ltb 32 (length p.dst_imsi) ≡ false = ground (arith, dst_fits) in
      let enough : ltb (length packet)
            (12 + length p.src_imsi + length p.dst_imsi + (if conf then 4 else 0))
          ≡ false =
        ground (arith, size, length-append (conf_bytes p.conf_id) p.payload, length-conf_bytes) in
      rw conf_read (rw (known_end, short) enough)

  decoded : decode_u2u packet ≡ some (packet_of packet (length p.src_imsi) (length p.dst_imsi))
  unfolding decode_u2u
  decoded =
      let dst = dst_length head p.src_imsi p.dst_imsi rest refl in
      let long : ltb (length packet) 12 ≡ false = ground (arith, size) in
      let named : (length p.src_imsi == 0) ≡ false = ground (arith, some_src) in
      let short : ltb 32 (length p.src_imsi) ≡ false = ground (arith, src_fits) in
      let enough : ltb (length packet) (12 + length p.src_imsi) ≡ false = ground (arith, size) in
      rw (long, (reads).1, named, short, enough) (rw (dst, dst_good) refl)

  conf_cases :
      (conf_bytes p.conf_id ≡ []) × (conf ≡ false) × (p.conf_id ≡ 0)
      ⊎ (conf_bytes p.conf_id ≡ bytes32 p.conf_id) × (conf ≡ true)
  unfolding conf_bytes
  conf_cases = elim (Bool-cases (p.conf_id == 0)) [
    | inl e ↦ inl (rw e refl, rw e refl, (==_iff p.conf_id 0).0 e)
    | inr e ↦ inr (rw e refl, rw e refl)
  ]

  abbrev off : ℕ
  off = 12 + length p.src_imsi + length p.dst_imsi

  behind : drop off packet ≡ rest
  behind = behind_dst head p.src_imsi p.dst_imsi rest refl

  conf_word_read : conf_bytes p.conf_id ≡ bytes32 p.conf_id → word_at packet off ≡ p.conf_id
  unfolding word_at bytes32
  conf_word_read e =
      ap (λ l. word32 (get_or l 0 0) (get_or l 1 0) (get_or l 2 0) (get_or l 3 0))
        (behind ∙ ap (λ l. l ++ p.payload) e)
      ∙ word32-bytes32 p.conf_id conf_word

  conf_id_read : (if conf then word_at packet off else 0) ≡ p.conf_id
  conf_id_read = elim (conf_cases) [
    | inl e ↦ picked conf (word_at packet off) (inl (e.1, e.2))
    | inr e ↦ picked conf (word_at packet off) (inr (e.1, conf_word_read e.0))
  ]
    where
      picked :
          (b : Bool) (w : ℕ)
          → (b ≡ false) × (p.conf_id ≡ 0) ⊎ (b ≡ true) × (w ≡ p.conf_id)
          → (if b then w else 0) ≡ p.conf_id
      picked b w (inl e) = rw e.0 (sym e.1)
      picked b w (inr e) = rw e.0 e.1

  payload_read : drop (if conf then off + 4 else off) packet ≡ p.payload
  payload_read = elim (conf_cases) [
    | inl e ↦ picked conf packet (inl (e.1, behind ∙ ap (λ l. l ++ p.payload) e.0))
    | inr e ↦ picked conf packet (
        inr (
          e.1,
          drop-add off 4 packet
              ∙ ap (drop 4) (behind ∙ ap (λ l. l ++ p.payload) e.0)
              ∙ unfold bytes32 in refl,
        ))
  ]
    where
      picked :
          (b : Bool) (l : List ℕ)
          → (b ≡ false) × (drop off l ≡ p.payload) ⊎ (b ≡ true) × (drop (off + 4) l ≡ p.payload)
          → drop (if b then off + 4 else off) l ≡ p.payload
      picked b l (inl e) = rw e.0 e.1
      picked b l (inr e) = rw e.0 e.1

  seq_read : word_at packet 2 ≡ p.seq
  unfolding word_at
  seq_read = word32-bytes32 p.seq seq_word

  time_read : word_at packet 6 ≡ p.timestamp_ms
  unfolding word_at
  time_read = word32-bytes32 p.timestamp_ms time_word

  fields : packet_of packet (length p.src_imsi) (length p.dst_imsi) ≡ p
  unfolding packet_of
  fields =
      packed packet conf_read ack_read end_read (reads).0 seq_read time_read
        (src_part head p.src_imsi p.dst_imsi rest refl)
        (dst_part head p.src_imsi p.dst_imsi rest refl) conf_id_read payload_read
    where
      packed :
          (l : List ℕ)
          → has_flag l 0x20 ≡ conf
          → has_flag l 0x80 ≡ p.ack
          → has_flag l 0x40 ≡ p.end
          → kind_of (bit_and (get_or l 1 0) 0x0f) ≡ p.kind
          → word_at l 2 ≡ p.seq
          → word_at l 6 ≡ p.timestamp_ms
          → take (length p.src_imsi) (drop 11 l) ≡ p.src_imsi
          → take (length p.dst_imsi) (drop (12 + length p.src_imsi) l) ≡ p.dst_imsi
          → (if conf then word_at l off else 0) ≡ p.conf_id
          → drop (if conf then off + 4 else off) l ≡ p.payload
          → packet_of l (length p.src_imsi) (length p.dst_imsi) ≡ p
      packed l c a e k s t x y i d =
          unfold packet_of in rw (c, a, e, k, s, t, x, y) (rw (i, d) refl)

-- A packet is decoded to itself, with every kind, flag and payload. (Its numbers have 32 bits, the
-- source has from 1 to 32 bytes, the destination at most 32, and it names a destination unless it
-- belongs to a conference.)
pub decode_u2u-encode_u2u :
    (p : U2uPacket)
    → p.seq < 2 ^ 32
    → p.timestamp_ms < 2 ^ 32
    → p.conf_id < 2 ^ 32
    → 0 < length p.src_imsi
    → length p.src_imsi ≤ 32
    → length p.dst_imsi ≤ 32
    → (0 < length p.dst_imsi) ⊎ (p.conf_id ≢ 0)
    → decode_u2u (encode_u2u p) ≡ some p
decode_u2u-encode_u2u p s t c n x d o =
    ap decode_u2u (encoded p s t c n x d o)
    ∙ decoded p s t c n x d o
    ∙ ap some (fields p s t c n x d o)
