-- ===== src/Core/Harq/Tx.antt =====
-- stack/core/src/harq.cpp, `HarqTx`: parallel stop-and-wait processes with a budget of
-- retransmissions for each transport block. Times are 32-bit and compared by their wrapped difference.
pub mod Outcomes
pub mod Budget
pub mod Blocks
pub mod Send
use aether_stack.Base.{
  ℕ, zero, suc, ◌+◌, ◌-◌, ◌*◌, ◌%◌, ◌^◌, max, List, [], ◌∷◌, ◌++◌, Option, none, some, Bool, true,
  false, not, ◌&&◌, length, get_or, set, replicate, map, ltb, leb, ◌==◌, if◌then◌else◌, bit_xor, u8,
  u32, sub32, nonneg32,
}
use aether_stack.Core.Harq.Wire.{link_encode}

pub record Config : Type 0 where
  pub num_processes : ℕ
  pub max_retx : ℕ
  pub ack_timeout_ms : ℕ

pub record Proc : Type 0 where
  pub busy : Bool
  pub ndi : ℕ
  pub retx_count : ℕ
  pub deadline : ℕ
  pub coded : List ℕ
  pub crc_block : List ℕ

pub record HarqTx : Type 0 where
  pub cfg : Config
  pub procs : List Proc
  pub next_proc : ℕ
  pub last_now : ℕ

pub data Kind : Type 0 where
  new_tx retx_tx : Kind

pub record Event : Type 0 where
  pub kind : Kind
  pub proc : ℕ
  pub ndi : ℕ
  pub coded : List ℕ

abbrev pub fresh_proc : Proc
fresh_proc = record {
  busy = false;
  ndi = 1;
  retx_count = 0;
  deadline = 0;
  coded = [];
  crc_block = [];
}

unfoldable pub init : Config → HarqTx
init cfg = record {
  cfg = cfg;
  procs = replicate cfg.num_processes fresh_proc;
  next_proc = 0;
  last_now = 0;
}

abbrev pub proc_at : HarqTx → ℕ → Proc
proc_at s p = get_or s.procs p fresh_proc

abbrev pub put_proc : HarqTx → ℕ → Proc → HarqTx
put_proc s p pr = record s { procs = set s.procs p pr }

-- `for i in [i, i + n)`: the first process from `next_proc + i` on that is free.
pub find_free : ℕ → ℕ → HarqTx → Option ℕ
find_free zero i s = none
find_free (suc n) i s =
    let rest = find_free n (i + 1) s in
    let p = u8 ((s.next_proc + i) % s.cfg.num_processes) in
    if (proc_at s p).busy then rest else some p

-- `all_busy` is nullopt; `threw` is an exception of `link_encode`, with what was written before.
pub data SendResult : Type 0 where
  all_busy : SendResult
  sent : Event → HarqTx → SendResult
  threw : HarqTx → SendResult

-- The process as it is filled for a new block.
abbrev pub loaded : HarqTx → ℕ → List ℕ → List ℕ → Proc
loaded s p mac_pdu coded = record {
  busy = true;
  ndi = bit_xor (proc_at s p).ndi 1;
  retx_count = 0;
  deadline = u32 (s.last_now + s.cfg.ack_timeout_ms);
  coded = coded;
  crc_block = mac_pdu;
}

-- The body of the loop at a free process, with `link_encode`'s result.
pub started : HarqTx → ℕ → List ℕ → Option (List ℕ) → SendResult
started s p mac_pdu none = threw (put_proc s p (loaded s p mac_pdu (proc_at s p).coded))
started s p mac_pdu (some coded) =
    sent (record { kind = new_tx; proc = p; ndi = bit_xor (proc_at s p).ndi 1; coded = coded })
      (record (put_proc s p (loaded s p mac_pdu coded)) {
        next_proc = u8 ((p + 1) % s.cfg.num_processes);
      })

pub start_at : HarqTx → List ℕ → Option ℕ → SendResult
unfolding started
start_at s mac_pdu none = all_busy
start_at s mac_pdu (some p) =
    started s p mac_pdu (link_encode mac_pdu p (bit_xor (proc_at s p).ndi 1))

unfoldable pub send : HarqTx → List ℕ → SendResult
unfolding start_at find_free
send s mac_pdu = start_at s mac_pdu (find_free s.cfg.num_processes 0 s)

-- Gives up on the block when its budget is spent, and repeats it otherwise.
unfoldable pub retx : HarqTx → ℕ → HarqTx × Option Event
retx s p =
    let pr = proc_at s p in
    if not pr.busy
    then (s, none)
    else if leb s.cfg.max_retx pr.retx_count
    then (put_proc s p (record pr { busy = false; crc_block = [] }), none)
    else (
      put_proc s p (record pr {
        retx_count = u8 (pr.retx_count + 1);
        deadline = u32 (s.last_now + s.cfg.ack_timeout_ms);
      }),
      some (record { kind = retx_tx; proc = p; ndi = pr.ndi; coded = pr.coded }),
    )

unfoldable pub advance : HarqTx → ℕ → HarqTx
advance s now = record s { last_now = max s.last_now now }

abbrev pub expired : HarqTx → ℕ → ℕ → Bool
expired s now p = (proc_at s p).busy && nonneg32 (sub32 now (proc_at s p).deadline)

abbrev pub event_list : Option Event → List Event
event_list none = []
event_list (some e) = e ∷ []

-- `for p in [p, p + n)`.
unfoldable pub poll_loop : ℕ → ℕ → ℕ → HarqTx → HarqTx × List Event
poll_loop zero p now s = (s, [])
poll_loop (suc n) p now s =
    let (t, e) = if expired s now p then retx s p else (s, none) in
    let (u, es) = poll_loop n (p + 1) now t in (u, event_list e ++ es)

unfoldable pub poll_timeouts : HarqTx → ℕ → HarqTx × List Event
poll_timeouts s now = poll_loop (length s.procs) 0 now (advance s now)

unfoldable pub on_ack : HarqTx → ℕ → HarqTx
on_ack s p =
    if leb (length s.procs) p
    then s
    else put_proc s p (record (proc_at s p) { busy = false; crc_block = [] })

unfoldable pub on_nack : HarqTx → ℕ → HarqTx × Option Event
on_nack s p = if leb (length s.procs) p then (s, none) else retx s p

abbrev pub idle_proc : Proc → Proc
idle_proc pr = record pr { busy = false; retx_count = 0; coded = []; crc_block = [] }

unfoldable pub reset : HarqTx → HarqTx
reset s = record s { procs = map idle_proc s.procs; next_proc = 0 }

unfoldable pub in_flight : List Proc → ℕ
in_flight [] = 0
in_flight (pr ∷ prs) = (if pr.busy then 1 else 0) + in_flight prs

-- The calls that a node makes on its transmitter.
pub data Call : Type 0 where
  sends : List ℕ → Call
  advances polls acks nacks : ℕ → Call
  resets : Call

abbrev pub after_send : HarqTx → SendResult → HarqTx × List Event
after_send s all_busy = (s, [])
after_send s (sent e t) = (t, e ∷ [])
after_send s (threw t) = (t, [])

abbrev pub with_event : HarqTx × Option Event → HarqTx × List Event
with_event r = (r.0, event_list r.1)

unfoldable pub step : HarqTx → Call → HarqTx × List Event
step s (sends mac_pdu) = after_send s (send s mac_pdu)
step s (advances now) = (advance s now, [])
step s (polls now) = poll_timeouts s now
step s (acks p) = (on_ack s p, [])
step s (nacks p) = with_event (on_nack s p)
step s resets = (reset s, [])

unfoldable pub run : HarqTx → List Call → HarqTx × List Event
unfolding step
run s [] = (s, [])
run s (c ∷ cs) = let (t, es) = step s c in let (u, fs) = run t cs in (u, es ++ fs)
