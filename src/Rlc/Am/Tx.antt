-- ===== src/Rlc/Am/Tx.antt =====
-- stack/rlc/src/rlc_am.cpp, `AmTx`.
use aether_stack.Base.{
  ℕ, zero, suc, ◌+◌, ◌/◌, ◌*◌, ◌^◌, List, [], ◌∷◌, ◌++◌, Option, none, some, Bool, true, false, not,
  ◌&&◌, ◌||◌, bit_and, bit_or, length, take, drop, ltb, leb, ◌==◌, if◌then◌else◌, u8, u16, u32,
  lookup,
}
use aether_stack.Rlc.Um.{fi_of, segment_bytes, segments_of}
use aether_stack.Rlc.Am.{AmConfig, am_dc_data, am_dc_control, am_poll_bit}

pub record AmTx : Type 0 where
  pub cfg : AmConfig
  pub tx_buffer : List (ℕ × List ℕ)
  pub next_sn : ℕ
  pub since_poll : ℕ
  pub retxs : ℕ
  pub tx_dropped : ℕ
  pub last_progress_ms : Option ℕ
  pub last_nack_burst_ms : Option ℕ

unfoldable pub put_u16 : ℕ → List ℕ
put_u16 x = u8 (bit_and x 0xff) ∷ u8 (x / 2 ^ 8) ∷ []

unfoldable pub get_u16 : ℕ → ℕ → ℕ
get_u16 lo hi = u16 (bit_or lo (hi * 2 ^ 8))

unfoldable pub build_pdu : ℕ → ℕ → List ℕ → List ℕ
unfolding put_u16
build_pdu seq fi_with_poll payload = u8 (bit_or am_dc_data fi_with_poll) ∷ (put_u16 seq ++ payload)

-- `tx_buffer_[sn] = pdu`
unfoldable pub put_pdu : List (ℕ × List ℕ) → ℕ → List ℕ → List (ℕ × List ℕ)
put_pdu [] sn pdu = (sn, pdu) ∷ []
put_pdu (e ∷ es) sn pdu =
    let rest = put_pdu es sn pdu in
    if e.0 == sn then (sn, pdu) ∷ es else if ltb sn e.0 then (sn, pdu) ∷ e ∷ es else e ∷ rest

-- The body of the loop over the segments: the PDU and what is left of the SDU.
unfoldable pub send_segment : AmTx → ℕ → ℕ → List ℕ → AmTx × List ℕ
unfolding build_pdu
send_segment t seg segments left =
    let since = u8 (t.since_poll + 1) in
    let poll = leb t.cfg.poll_every since in
    let fi = fi_of seg segments in
    let payload = segment_bytes t.cfg.max_pdu_payload seg segments left in
    let pdu = build_pdu t.next_sn (if poll then bit_or fi am_poll_bit else fi) payload in
    (
      record t {
        since_poll = if poll then 0 else since;
        tx_buffer = put_pdu t.tx_buffer t.next_sn pdu;
        next_sn = u16 (t.next_sn + 1);
      },
      pdu,
    )

-- `for seg in [seg, seg + n)`; `left` is the SDU from the segment's first byte on.
unfoldable pub tx_loop : ℕ → ℕ → ℕ → AmTx → List ℕ → AmTx × List (List ℕ)
tx_loop zero seg segments t left = (t, [])
tx_loop (suc n) seg segments t left =
    let s = send_segment t seg segments left in
    let rest = tx_loop n (seg + 1) segments s.0 (drop t.cfg.max_pdu_payload left) in
    (rest.0, s.1 ∷ rest.1)

-- A forced SDU may go four PDUs beyond the limit.
unfoldable pub tx : AmTx → ℕ → List ℕ → Bool → AmTx × List (List ℕ)
unfolding tx_loop
tx t now_ms [] force = (t, [])
tx t now_ms (x ∷ sdu) force =
    let limit = t.cfg.tx_buffer_limit + (if force then 4 else 0) in
    let segments = segments_of t.cfg.max_pdu_payload (length (x ∷ sdu)) in
    if leb limit (length t.tx_buffer)
    then (record t { tx_dropped = t.tx_dropped + 1 }, [])
    else tx_loop segments 0 segments (record t { last_progress_ms = some now_ms }) (x ∷ sdu)

-- The counters of refused SDUs and of retransmissions stay.
unfoldable pub reset : AmTx → AmTx
reset t = record t {
  tx_buffer = [];
  next_sn = 0;
  since_poll = 0;
  last_progress_ms = none;
  last_nack_burst_ms = none;
}

-- `last >= 0 && now - last < window`
unfoldable pub within : Option ℕ → ℕ → ℕ → Bool
within none now window = false
within (some last) now window = ltb now (last + window)

unfoldable pub is_empty : List (ℕ × List ℕ) → Bool
is_empty [] = true
is_empty (e ∷ es) = false

unfoldable pub pdus_of : List (ℕ × List ℕ) → List (List ℕ)
pdus_of [] = []
pdus_of (e ∷ es) = e.1 ∷ pdus_of es

unfoldable pub tick : AmTx → ℕ → AmTx × List (List ℕ)
unfolding within is_empty pdus_of
tick t now_ms =
    let out = pdus_of (take t.cfg.probe_batch t.tx_buffer) in
    if t.cfg.t_poll_ms == 0
      || is_empty t.tx_buffer
      || within t.last_progress_ms now_ms t.cfg.t_poll_ms
    then (t, [])
    else (record t { last_progress_ms = some now_ms; retxs = u32 (t.retxs + length out) }, out)

-- The buffer without what is below `ack_sn`.
unfoldable pub unacked_from : ℕ → List (ℕ × List ℕ) → List (ℕ × List ℕ)
unacked_from ack_sn [] = []
unacked_from ack_sn (e ∷ es) =
    let rest = unacked_from ack_sn es in if ltb e.0 ack_sn then rest else e ∷ rest

abbrev pub same_sn : ℕ → ℕ → Bool
same_sn a b = a == b

-- The loop over the numbers of a STATUS, of which `count` are left.
unfoldable pub nack_loop : ℕ → ℕ → ℕ → List (ℕ × List ℕ) → List ℕ → List (List ℕ)
unfolding get_u16
nack_loop zero batch sent buffer bytes = []
nack_loop (suc count) batch sent buffer [] = []
nack_loop (suc count) batch sent buffer (lo ∷ []) = []
nack_loop (suc count) batch sent buffer (lo ∷ hi ∷ bytes) =
    if leb batch sent
    then []
    else found (lookup same_sn buffer (get_u16 lo hi)) (nack_loop count batch sent buffer bytes)
        (nack_loop count batch (sent + 1) buffer bytes)
  where
    found : Option (List ℕ) → List (List ℕ) → List (List ℕ) → List (List ℕ)
    found none skipped rest = skipped
    found (some pdu) skipped rest = pdu ∷ rest

-- `last_nack_burst_ms_ < 0 || now - last >= t_poll`, and there is something to resend.
unfoldable pub burst_allowed : AmTx → ℕ → ℕ → Bool
unfolding within
burst_allowed t now_ms count =
    not (within t.last_nack_burst_ms now_ms t.cfg.t_poll_ms) && ltb 0 count

unfoldable pub on_status : AmTx → ℕ → List ℕ → AmTx × List (List ℕ)
unfolding get_u16 unacked_from nack_loop burst_allowed
on_status t now_ms [] = (t, [])
on_status t now_ms (a ∷ []) = (t, [])
on_status t now_ms (a ∷ b ∷ []) = (t, [])
on_status t now_ms (a ∷ b ∷ c ∷ []) = (t, [])
on_status t now_ms (a ∷ lo ∷ hi ∷ count ∷ bytes) =
    let buffer = unacked_from (get_u16 lo hi) t.tx_buffer in
    let retx = nack_loop count t.cfg.probe_batch 0 buffer bytes in
    let s : AmTx = record t { tx_buffer = buffer; last_progress_ms = some now_ms } in
    if not (a == am_dc_control)
    then (t, [])
    else if burst_allowed t now_ms count
    then (record s { last_nack_burst_ms = some now_ms; retxs = u32 (t.retxs + length retx) }, retx)
    else (s, [])
