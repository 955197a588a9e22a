-- ===== src/Rlc/Am/Rx.antt =====
-- stack/rlc/src/rlc_am.cpp, `AmRx`. The outcome of a call is threaded through its steps.
use aether_stack.Base.{
  ℕ, zero, suc, ◌+◌, ◌-◌, ◌^◌, ◌%◌, List, [], ◌∷◌, ◌++◌, Option, none, some, Bool, true, false, not,
  ◌||◌, bit_and, length, ltb, ◌==◌, if◌then◌else◌, u8, u16,
}
use aether_stack.Rlc.Um.{Held, find_held, erase_held, put_held, insert_seen, bounded}
use aether_stack.Rlc.Am.{AmConfig, am_dc_data, am_dc_control, am_fi_mask, am_poll_bit}
use aether_stack.Rlc.Am.Tx.{put_u16, get_u16, within}

pub record Outcome : Type 0 where
  pub delivered : List (List ℕ)
  pub status_needed : Bool

pub record AmRx : Type 0 where
  pub cfg : AmConfig
  pub vr_next : ℕ
  pub seen : List ℕ
  pub holes : List ℕ
  pub reorder : List Held
  pub collecting : Bool
  pub partial_sdu : List ℕ
  pub gaps : ℕ
  pub overflows : ℕ
  pub accepts : ℕ
  pub tick_accepts : ℕ
  pub last_progress_ms : Option ℕ

abbrev pub no_outcome : Outcome
no_outcome = record { delivered = []; status_needed = false }

unfoldable pub erase_hole : List ℕ → ℕ → List ℕ
erase_hole [] sn = []
erase_hole (h ∷ hs) sn = let rest = erase_hole hs sn in if h == sn then hs else h ∷ rest

unfoldable pub insert_hole : List ℕ → ℕ → List ℕ
insert_hole [] sn = sn ∷ []
insert_hole (h ∷ hs) sn =
    let rest = insert_hole hs sn in
    if h == sn then h ∷ hs else if ltb sn h then sn ∷ h ∷ hs else h ∷ rest

abbrev pub with_sdu : Outcome → List ℕ → Outcome
with_sdu out sdu = record out { delivered = out.delivered ++ (sdu ∷ []) }

-- The reassembly by the segment's position, and the next sequence number.
unfoldable pub accept_in_order : AmRx → ℕ → ℕ → List ℕ → Outcome → AmRx × Outcome
unfolding erase_hole
accept_in_order s sn fi payload out =
    let t : AmRx = record s {
      holes = erase_hole s.holes sn;
      accepts = (s.accepts + 1) % 2 ^ 64;
      vr_next = u16 (s.vr_next + 1);
    } in
    let position = bit_and fi am_fi_mask in
    if position == 0x00
    then (t, with_sdu out payload)
    else if position == 0x10
    then (record t { collecting = true; partial_sdu = payload }, out)
    else if position == 0x20
    then (if s.collecting
        then (
          record t { collecting = false; partial_sdu = [] },
          with_sdu out (s.partial_sdu ++ payload),
        )
        else (t, out))
    else if s.collecting
    then (record t { partial_sdu = s.partial_sdu ++ payload }, out)
    else (t, out)

-- Each round takes one PDU out of the hold area.
unfoldable pub drain_loop : ℕ → AmRx → Outcome → AmRx × Outcome
unfolding accept_in_order
drain_loop zero s out = (s, out)
drain_loop (suc fuel) s out = drained (find_held s.reorder s.vr_next) (λ t o. drain_loop fuel t o)
  where
    drained : Option Held → (AmRx → Outcome → AmRx × Outcome) → AmRx × Outcome
    drained none rest = (s, out)
    drained (some h) rest =
        let a = accept_in_order s h.sn h.fi h.payload out in
        rest (record (a.0) { reorder = erase_held s.reorder h.sn }) a.1

unfoldable pub drain_reorder : AmRx → Outcome → AmRx × Outcome
unfolding drain_loop
drain_reorder s out = drain_loop (length s.reorder) s out

-- `vr_next_` behind the last of the holes.
unfoldable pub skip_holes : ℕ → List ℕ → ℕ
skip_holes vr_next [] = vr_next
skip_holes vr_next (h ∷ hs) = skip_holes (u16 (h + 1)) hs

-- The holes were open for too long.
unfoldable pub give_up_holes : AmRx → ℕ → AmRx × Outcome
unfolding skip_holes drain_reorder
give_up_holes s now_ms =
    let a =
      drain_reorder
        (record s {
          vr_next = skip_holes s.vr_next s.holes;
          holes = [];
          collecting = false;
          partial_sdu = [];
          last_progress_ms = some now_ms;
        })
        no_outcome in
    (a.0, record (a.1) { status_needed = true })

-- `last_progress_ms_ < 0 || now - last < t_reorder`
unfoldable pub progressing : AmRx → ℕ → Bool
unfolding within
progressing s now_ms = elim s.last_progress_ms [
  | none ↦ true
  | some last ↦ within (some last) now_ms s.cfg.t_reorder_ms
]

unfoldable pub tick : AmRx → ℕ → AmRx × Outcome
unfolding progressing give_up_holes
tick s now_ms =
    let t : AmRx =
      if not (s.accepts == s.tick_accepts)
      then record s { tick_accepts = s.accepts; last_progress_ms = some now_ms }
      else s in
    if s.cfg.t_reorder_ms == 0
    then (s, no_outcome)
    else if length t.holes == 0 || progressing t now_ms
    then (t, no_outcome)
    else give_up_holes t now_ms

-- `for sn in [sn, sn + n)`, while there are less than 256 holes.
unfoldable pub open_holes : ℕ → ℕ → AmRx → Outcome → AmRx × Outcome
unfolding insert_hole
open_holes zero sn s out = (s, out)
open_holes (suc n) sn s out =
    let rest =
      open_holes n (sn + 1) (record s { holes = insert_hole s.holes sn; gaps = s.gaps + 1 })
        (record out { status_needed = true }) in
    if ltb (length s.holes) 256 then rest else (s, out)

-- A PDU in order is accepted with what waits behind it, one that is ahead is held.
unfoldable pub rx_new : AmRx → ℕ → ℕ → List ℕ → AmRx × Outcome
unfolding open_holes accept_in_order drain_reorder
rx_new s fi seq payload =
    let a = accept_in_order s seq fi payload no_outcome in
    let o = open_holes (seq - s.vr_next) s.vr_next s no_outcome in
    if ltb s.vr_next seq
    then (if ltb (length o.0.reorder) 512
        then (
          record (o.0) {
            reorder = put_held o.0.reorder (record { sn = seq; fi = fi; payload = payload });
          },
          o.1,
        )
        else (record (o.0) { overflows = o.0.overflows + 1 }, o.1))
    else drain_reorder a.0 a.1

abbrev pub polled : Bool → AmRx × Outcome → AmRx × Outcome
polled poll a = (a.0, record (a.1) { status_needed = if poll then true else a.1.status_needed })

unfoldable pub rx_seen : AmRx → ℕ → ℕ → List ℕ → Option (List ℕ) → AmRx × Outcome
unfolding rx_new
rx_seen s b0 seq payload none = (s, no_outcome)
rx_seen s b0 seq payload (some seen) =
    let t : AmRx = record s { seen = bounded seen } in
    if ltb seq s.vr_next
    then (t, no_outcome)
    else polled (not (bit_and b0 am_poll_bit == 0))
        (rx_new t (u8 (bit_and b0 am_fi_mask)) seq payload)

unfoldable pub rx : AmRx → List ℕ → AmRx × Outcome
unfolding rx_seen get_u16
rx s [] = (s, no_outcome)
rx s (a ∷ []) = (s, no_outcome)
rx s (a ∷ b ∷ []) = (s, no_outcome)
rx s (b0 ∷ lo ∷ hi ∷ payload) =
    let seq = get_u16 lo hi in
    if bit_and b0 0xc0 == am_dc_data
    then rx_seen s b0 seq payload (insert_seen s.seen seq)
    else (s, no_outcome)

unfoldable pub reset : AmRx → AmRx
reset s = record s {
  vr_next = 0;
  seen = [];
  holes = [];
  reorder = [];
  collecting = false;
  partial_sdu = [];
  accepts = 0;
  tick_accepts = 0;
  last_progress_ms = none;
}

unfoldable pub put_all : List ℕ → List ℕ
unfolding put_u16
put_all [] = []
put_all (h ∷ hs) = put_u16 h ++ put_all hs

unfoldable pub build_status : AmRx → List ℕ
unfolding put_u16 put_all
build_status s = am_dc_control ∷ (put_u16 s.vr_next ++ (u8 (length s.holes) ∷ put_all s.holes))
