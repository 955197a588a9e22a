-- ===== src/Rlc/Tests.antt =====
-- Runs of radio link control at concrete inputs.
use aether_stack.Base.{
  ℕ, ◌≡◌, refl, ◌<◌, ◌≤◌, lookup, ◌==◌, List, [], ◌∷◌, none, true, false, arith, length, replicate,
}
use aether_stack.Rlc.Um.{UmConfig, UmTx, UmRx, segments_of, tx, rx, insert_seen, put_held}
use aether_stack.Rlc.Am.{am_node_bearer_config}
use aether_stack.Rlc.Am.Tx
use aether_stack.Rlc.Am.Tx.{AmTx, burst_allowed, on_status}
use aether_stack.Rlc.Am.Rx.{AmRx, build_status}
use aether_stack.Rlc.Am.RoundTrip.{rx_all, rx_all-tx}
use aether_stack.Rlc.Am.Status.{length-on_status, named, on_status-build_status, on_status-no_room}
use aether_stack.Rlc.Um.Reassembly.{rx_all as um_rx_all, ready-tx}

abbrev config : UmConfig
config = record { max_pdu_payload = 3; window = 64; t_reorder_ms = 40 }

abbrev sender : UmTx
sender = record { cfg = config; next_sn = 65535 }

abbrev receiver : UmRx
receiver = record {
  cfg = config;
  vr_next = 65535;
  buffer = [];
  seen = [];
  ready = (9 ∷ []) ∷ [];
  collecting = false;
  partial_sdu = [];
  timer_running = false;
  timer_deadline = 0;
  dropped = 0;
  duplicates = 0;
}

abbrev long_sdu : List ℕ
long_sdu = 1 ∷ 2 ∷ 3 ∷ 4 ∷ 5 ∷ 6 ∷ 7 ∷ []

abbrev early_receiver : UmRx
early_receiver = record receiver { vr_next = 40; seen = 38 ∷ 39 ∷ [] }

ready-tx_example :
    (um_rx_all early_receiver 5 (tx (record sender { next_sn = 40 }) long_sdu).1).ready
    ≡ (9 ∷ []) ∷ long_sdu ∷ []
ready-tx_example =
    ready-tx (record sender { next_sn = 40 }) early_receiver 5 long_sdu (omega arith) (omega arith)
      (refl, (omega arith, (omega arith, tt)), refl, omega arith)
      (unfold segments_of in omega arith)

-- Out of order across the wrap of the sequence numbers, and one twice: the SDU comes out once.
out_of_order :
    (rx
      (rx
        (rx (rx receiver 0 (0x20 ∷ 1 ∷ 0 ∷ 7 ∷ [])) 1 (0x10 ∷ 255 ∷ 255 ∷ 1 ∷ 2 ∷ 3 ∷ []))
        2
        (0x20 ∷ 1 ∷ 0 ∷ 7 ∷ []))
      3
      (0x30 ∷ 0 ∷ 0 ∷ 4 ∷ 5 ∷ 6 ∷ [])).ready
    ≡ (9 ∷ []) ∷ long_sdu ∷ []
unfolding rx insert_seen put_held aether_stack.Rlc.Um.ahead aether_stack.Rlc.Um.bounded
    aether_stack.Rlc.Um.find_held
out_of_order = refl

abbrev am_sender : AmTx
am_sender = record {
  cfg = record (am_node_bearer_config) { max_pdu_payload = 3; probe_batch = 2 };
  tx_buffer = [];
  next_sn = 40;
  since_poll = 2;
  retxs = 0;
  tx_dropped = 0;
  last_progress_ms = none;
  last_nack_burst_ms = none;
}

abbrev am_receiver : AmRx
am_receiver = record {
  cfg = am_node_bearer_config;
  vr_next = 40;
  seen = 38 ∷ 39 ∷ [];
  holes = [];
  reorder = [];
  collecting = false;
  partial_sdu = [];
  gaps = 0;
  overflows = 0;
  accepts = 40;
  tick_accepts = 40;
  last_progress_ms = none;
}

rx_all-tx_example : rx_all am_receiver (Tx.tx am_sender 5 long_sdu false).1 ≡ long_sdu ∷ []
rx_all-tx_example =
    rx_all-tx am_sender am_receiver 5 long_sdu false (omega arith) (omega arith) (omega arith)
      (refl, omega arith, refl) (unfold segments_of in omega arith)

abbrev status : List ℕ
status = 0x40 ∷ 40 ∷ 0 ∷ 1 ∷ 41 ∷ 0 ∷ []

abbrev holding : AmTx
holding = record am_sender { tx_buffer = (40, 1 ∷ []) ∷ (41, 2 ∷ []) ∷ (42, 3 ∷ []) ∷ [] }

length-on_status_example : length (on_status holding 6 status).1 ≤ 2
length-on_status_example = length-on_status holding 6 status

abbrev missing_one : AmRx
missing_one = record am_receiver { vr_next = 41; holes = 41 ∷ [] }

may_burst : burst_allowed holding 6 1 ≡ true
unfolding burst_allowed
may_burst = refl

on_status-build_status_example :
    let r = on_status holding 6 (build_status missing_one) in
    ((sn : ℕ) → sn < 41 → lookup ◌==◌ r.0.tx_buffer sn ≡ none)
    × ((sn : ℕ) → 41 ≤ sn → lookup ◌==◌ r.0.tx_buffer sn ≡ lookup ◌==◌ holding.tx_buffer sn)
    × (r.1 ≡ named r.0.tx_buffer (41 ∷ []))
on_status-build_status_example =
    on_status-build_status holding missing_one 6 (omega arith) (omega arith, tt) (omega arith)
      (omega arith) may_burst

abbrev all_missing : AmRx
all_missing = record am_receiver { holes = replicate 256 41 }

on_status-no_room_example : (on_status holding 6 (build_status all_missing)).1 ≡ []
on_status-no_room_example = on_status-no_room holding all_missing 6 refl
