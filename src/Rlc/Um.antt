-- ===== src/Rlc/Um.antt =====
-- stack/rlc/src/rlc_um.cpp and stack/rlc/include/rlc/rlc_um.h: unacknowledged mode, which cuts an SDU
-- into PDUs and puts it together again in order. The buffer and the set of sequence numbers are
-- lists in increasing order, as the code's map and set are.
pub mod Seen
pub mod Reassembly
use aether_stack.Base.{
  ℕ, zero, suc, ◌+◌, ◌-◌, ◌*◌, ◌/◌, ◌^◌, List, [], ◌∷◌, ◌++◌, Option, none, some, Bool, true, false,
  not, ◌&&◌, bit_and, bit_or, length, take, drop, ltb, leb, ◌==◌, if◌then◌else◌, u8, u16, u32,
  sub16, sub32, nonneg16, nonneg32,
}

abbrev pub um_fi_complete : ℕ
um_fi_complete = 0x00

abbrev pub um_fi_first : ℕ
um_fi_first = 0x10

abbrev pub um_fi_last : ℕ
um_fi_last = 0x20

abbrev pub um_fi_middle : ℕ
um_fi_middle = 0x30

abbrev pub um_fi_mask : ℕ
um_fi_mask = 0x30

pub record UmConfig : Type 0 where
  pub max_pdu_payload : ℕ
  pub window : ℕ
  pub t_reorder_ms : ℕ

pub record UmTx : Type 0 where
  pub cfg : UmConfig
  pub next_sn : ℕ

unfoldable pub fi_of : ℕ → ℕ → ℕ
fi_of seg segments =
    if ltb 1 segments
    then (if seg == 0
        then um_fi_first
        else if seg == segments - 1
        then um_fi_last
        else um_fi_middle)
    else um_fi_complete

-- The bytes of a segment, where `left` begins with it.
unfoldable pub segment_bytes : ℕ → ℕ → ℕ → List ℕ → List ℕ
segment_bytes maxp seg segments left = if seg == segments - 1 then left else take maxp left

-- `for seg in [seg, seg + n)`; `left` is the SDU from the segment's first byte on.
unfoldable pub tx_loop : ℕ → ℕ → ℕ → UmTx → List ℕ → UmTx × List (List ℕ)
tx_loop zero seg segments t left = (t, [])
tx_loop (suc n) seg segments t left =
    let pdu =
      fi_of seg segments
      ∷ u8 (bit_and t.next_sn 0xff)
      ∷ u8 (bit_and (t.next_sn / 2 ^ 8) 0xff)
      ∷ segment_bytes t.cfg.max_pdu_payload seg segments left in
    let (u, pdus) =
      tx_loop n (seg + 1) segments (record t { next_sn = u16 (t.next_sn + 1) })
        (drop t.cfg.max_pdu_payload left) in
    (u, pdu ∷ pdus)

-- `(size + maxp - 1) / maxp`
unfoldable pub segments_of : ℕ → ℕ → ℕ
segments_of maxp size = (size + maxp - 1) / maxp

unfoldable pub tx : UmTx → List ℕ → UmTx × List (List ℕ)
tx t [] = (t, [])
tx t (b ∷ sdu) =
    let segments = segments_of t.cfg.max_pdu_payload (length (b ∷ sdu)) in
    tx_loop segments 0 segments t (b ∷ sdu)

pub record Held : Type 0 where
  pub sn : ℕ
  pub fi : ℕ
  pub payload : List ℕ

pub record UmRx : Type 0 where
  pub cfg : UmConfig
  pub vr_next : ℕ
  pub buffer : List Held
  pub seen : List ℕ
  pub ready : List (List ℕ)
  pub collecting : Bool
  pub partial_sdu : List ℕ
  pub timer_running : Bool
  pub timer_deadline : ℕ
  pub dropped : ℕ
  pub duplicates : ℕ

-- The forward distance of a sequence number in the window, `none` for -1.
unfoldable pub ahead : UmRx → ℕ → Option ℕ
ahead s sn = let d = sub16 sn s.vr_next in if nonneg16 d && ltb d s.cfg.window then some d else none

-- The reassembly, by the segment's position, and the next sequence number.
unfoldable pub accept_in_order : UmRx → ℕ → List ℕ → UmRx
accept_in_order s fi payload =
    let t = record s { vr_next = u16 (s.vr_next + 1) } in
    if fi == um_fi_complete
    then record t { ready = s.ready ++ (payload ∷ []) }
    else if fi == um_fi_first
    then record t { collecting = true; partial_sdu = payload }
    else if fi == um_fi_last
    then (if s.collecting
        then record t {
          ready = s.ready ++ ((s.partial_sdu ++ payload) ∷ []);
          collecting = false;
          partial_sdu = [];
        }
        else t)
    else if s.collecting
    then record t { partial_sdu = s.partial_sdu ++ payload }
    else t

unfoldable pub find_held : List Held → ℕ → Option Held
find_held [] sn = none
find_held (h ∷ hs) sn = let rest = find_held hs sn in if h.sn == sn then some h else rest

unfoldable pub erase_held : List Held → ℕ → List Held
erase_held [] sn = []
erase_held (h ∷ hs) sn = let rest = erase_held hs sn in if h.sn == sn then hs else h ∷ rest

-- `buffer_[sn] = ...`
unfoldable pub put_held : List Held → Held → List Held
put_held [] x = x ∷ []
put_held (h ∷ hs) x =
    let rest = put_held hs x in
    if h.sn == x.sn then x ∷ hs else if ltb x.sn h.sn then x ∷ h ∷ hs else h ∷ rest

-- The loop of `deliver_ready`, which takes one PDU out of the buffer in each round.
unfoldable pub deliver_loop : ℕ → UmRx → UmRx
deliver_loop zero s = s
deliver_loop (suc fuel) s = delivered (find_held s.buffer s.vr_next) (λ t. deliver_loop fuel t)
  where
    delivered : Option Held → (UmRx → UmRx) → UmRx
    delivered none rest = s
    delivered (some h) rest =
        rest (record (accept_in_order s h.fi h.payload) { buffer = erase_held s.buffer h.sn })

abbrev pub stop_when_empty : UmRx → UmRx
stop_when_empty s = record s {
  timer_running = if length s.buffer == 0 then false else s.timer_running;
}

unfoldable pub deliver_ready : UmRx → UmRx
unfolding deliver_loop
deliver_ready s = stop_when_empty (deliver_loop (length s.buffer) s)

-- `seen_.insert(sn)`: `none` when it is there already.
unfoldable pub insert_seen : List ℕ → ℕ → Option (List ℕ)
insert_seen [] sn = some (sn ∷ [])
insert_seen (x ∷ xs) sn =
    if x == sn then none else if ltb sn x then some (sn ∷ x ∷ xs) else behind (insert_seen xs sn)
  where
    behind : Option (List ℕ) → Option (List ℕ)
    behind none = none
    behind (some ys) = some (x ∷ ys)

-- No more than 8192 are kept; the smallest goes.
unfoldable pub bounded : List ℕ → List ℕ
bounded seen = if ltb 8192 (length seen) then drop 1 seen else seen

-- A sequence number outside the window: far ahead, the receiver starts over from it; else it is stale.
unfoldable pub rx_outside : UmRx → ℕ → ℕ → List ℕ → UmRx
unfolding accept_in_order deliver_ready
rx_outside s fi sn payload =
    let d = sub16 sn s.vr_next in
    if nonneg16 d && leb s.cfg.window d
    then deliver_ready (
        accept_in_order
          (record s {
            dropped = u32 (s.dropped + d);
            vr_next = sn;
            buffer = [];
            collecting = false;
            partial_sdu = [];
            timer_running = false;
          })
          fi payload)
    else record s { duplicates = u32 (s.duplicates + 1) }

unfoldable pub rx_new : UmRx → ℕ → ℕ → ℕ → List ℕ → Option ℕ → UmRx
unfolding rx_outside
rx_new s now_ms fi sn payload none = rx_outside s fi sn payload
rx_new s now_ms fi sn payload (some zero) = deliver_ready (accept_in_order s fi payload)
rx_new s now_ms fi sn payload (some (suc d)) = record s {
  buffer = put_held s.buffer (record { sn = sn; fi = fi; payload = payload });
  timer_running = true;
  timer_deadline = if s.timer_running then s.timer_deadline else u32 (now_ms + s.cfg.t_reorder_ms);
}

unfoldable pub rx_seen : UmRx → ℕ → ℕ → ℕ → List ℕ → Option (List ℕ) → UmRx
unfolding rx_new
rx_seen s now_ms fi sn payload none = record s { duplicates = u32 (s.duplicates + 1) }
rx_seen s now_ms fi sn payload (some seen) =
    rx_new (record s { seen = bounded seen }) now_ms fi sn payload (ahead s sn)

unfoldable pub rx : UmRx → ℕ → List ℕ → UmRx
unfolding rx_seen
rx s now_ms [] = s
rx s now_ms (a ∷ []) = s
rx s now_ms (a ∷ b ∷ []) = s
rx s now_ms (a ∷ b ∷ c ∷ []) = s
rx s now_ms (a ∷ b ∷ c ∷ d ∷ rest) =
    let sn = u16 (bit_or b (c * 2 ^ 8)) in
    rx_seen s now_ms (bit_and a um_fi_mask) sn (d ∷ rest) (insert_seen s.seen sn)

-- The hole below the lowest sequence number of the buffer is given up.
unfoldable pub on_reorder_timeout : UmRx → ℕ → UmRx
unfolding deliver_ready
on_reorder_timeout s now_ms = resumed s.buffer
  where
    skip : ℕ → UmRx
    skip resume =
        let skipped = sub16 resume s.vr_next in
        if ltb 0 skipped
        then record s {
          dropped = u32 (s.dropped + skipped);
          vr_next = resume;
          collecting = false;
          partial_sdu = [];
        }
        else s

    resumed : List Held → UmRx
    resumed [] = s
    resumed (h ∷ hs) =
        let t = deliver_ready (skip h.sn) in
        if length t.buffer == 0
        then t
        else record t { timer_running = true; timer_deadline = u32 (now_ms + s.cfg.t_reorder_ms) }

unfoldable pub tick : UmRx → ℕ → UmRx
unfolding on_reorder_timeout
tick s now_ms =
    if s.timer_running && nonneg32 (sub32 now_ms s.timer_deadline)
    then on_reorder_timeout (record s { timer_running = false }) now_ms
    else s

unfoldable pub poll : UmRx → UmRx × List (List ℕ)
poll s = (record s { ready = [] }, s.ready)

unfoldable pub reset : UmRx → UmRx
reset s = record s {
  vr_next = 0;
  buffer = [];
  seen = [];
  ready = [];
  collecting = false;
  partial_sdu = [];
  timer_running = false;
  dropped = 0;
  duplicates = 0;
}

unfoldable pub reset_tx : UmTx → UmTx
reset_tx t = record t { next_sn = 0 }
