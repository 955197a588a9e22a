-- ===== src/Core/Tests.antt =====
-- Runs of HARQ, of the air frames and of the bearer scheduler at concrete inputs.
use aether_stack.Base.{
  ℕ, ◌+◌, ◌*◌, ◌≤◌, ◌<◌, ◌≡◌, ◌↔◌, refl, subst, List, [], ◌∷◌, ◌++◌, some, true, arith, replicate,
}
use aether_stack.Core.Frames.{AirFrame, data_frame, pack_air_bits, unpack_air_bits}
use aether_stack.Core.Frames.Burst.{unpack_air_bits-pack_air_bits}
use aether_stack.Core.Harq.Wire.{Header, unpack, link_encode}
use aether_stack.Core.Harq.Rx.{HarqRx, receive, reset, received, crashed}
use aether_stack.Core.Harq.Rx.Soft.{Agrees}
use aether_stack.Core.Harq.Rx.History.{answer, AgreesFrame, AllAgree, receive-run}
use aether_stack.Core.Harq.Rx.Crash.{receive_crashes_iff}
use aether_stack.Core.Harq.Rx.Delivery.{delivered_result, receive-link_encode}
use aether_stack.Core.Harq.Tx.{
  Config, HarqTx, Event, SendResult, all_busy, sent, proc_at, fresh_proc, init, send, Call, sends,
  advances, polls, acks, nacks, resets, find_free, start_at,
}
use aether_stack.Core.Harq.Tx.Blocks.{AllExplained, run-AllExplained}
use aether_stack.Core.Harq.Tx.Budget.{repeats, new_blocks, repeats-run-le}
use aether_stack.Core.Harq.Tx.Send.{WellFormed, Accepted, send_refuses_iff, send_accepts}
use aether_stack.Core.Timers.{TimerList, Command, cancels, find_entry, tick}
use aether_stack.Core.Timers.Firing.{Distinct, AllWords, Due, tick_fires}
use aether_stack.Core.Qos.{
  Qci, sig, voice, video, best_effort, AppPdu, BearerSet, lcid_of, qci_of_lcid,
}
use aether_stack.Core.Qos.Share.{
  Op, queues, controls, pops, picks, be_picks, Backlogged, be_picks-share,
}

abbrev air_frame : AirFrame
air_frame = record { type = data_frame; rnti = 0x4601; payload = 1 ∷ 2 ∷ [] }

unpack_air_bits-pack_air_bits_example :
    unpack_air_bits (pack_air_bits (161 ∷ 0 ∷ 7 ∷ []) ++ (1 ∷ 0 ∷ 1 ∷ [])) ≡ some (161 ∷ 0 ∷ 7 ∷ [])
unpack_air_bits-pack_air_bits_example =
    unpack_air_bits-pack_air_bits (161 ∷ 0 ∷ 7 ∷ []) (1 ∷ 0 ∷ 1 ∷ []) (omega arith) (omega arith)

abbrev a_pdu : AppPdu
a_pdu = record { lcid = 4; cipher = true; bytes = 1 ∷ [] }

-- Much voice and two PDUs of best effort.
abbrev busy_set : BearerSet
busy_set = record {
  ctrl = [];
  sig_queue = [];
  voice_queue = replicate 6 a_pdu;
  video_queue = [];
  be_queue = a_pdu ∷ a_pdu ∷ [];
  since_be = 0;
}

abbrev five_pops : List Op
five_pops = pops ∷ pops ∷ queues sig a_pdu ∷ pops ∷ pops ∷ pops ∷ []

backlogged : Backlogged busy_set five_pops
unfolding Backlogged aether_stack.Core.Qos.Share.step aether_stack.Core.Qos.pop_next
    aether_stack.Core.Qos.pick_queue aether_stack.Core.Qos.first_queue
    aether_stack.Core.Qos.queue_of aether_stack.Core.Qos.put_queue aether_stack.Core.Qos.pop_from
    aether_stack.Core.Qos.pop_at
backlogged = (λ e. refl, (λ e. refl, (cc, (λ e. refl, (λ e. refl, (λ e. refl, tt))))))

be_picks-share_example : picks busy_set five_pops ≤ 4 * be_picks busy_set five_pops + 3
be_picks-share_example = be_picks-share busy_set five_pops backlogged

abbrev receiver : HarqRx
receiver = record { soft = [] }

-- A complete frame whose coded bytes are no codeword, and one of a single coded byte.
abbrev bad_frame : List ℕ
bad_frame = 1 ∷ 0 ∷ 6 ∷ 0 ∷ 2 ∷ 0 ∷ 0xa9 ∷ 90 ∷ 91 ∷ 92 ∷ 93 ∷ 94 ∷ 95 ∷ []

abbrev short_frame : List ℕ
short_frame = 2 ∷ 0 ∷ 1 ∷ 0 ∷ 1 ∷ 0 ∷ 0xa9 ∷ 5 ∷ []

bad_frame-Agrees : AgreesFrame bad_frame
unfolding unpack
bad_frame-Agrees h e = subst Agrees (same _ h e) refl
  where
    same : (a b : Header) → some a ≡ some b → a ≡ b
    same a b k = cc

receive-run_example :
    answer
      (receive (aether_stack.Core.Harq.Rx.History.run (reset receiver) (bad_frame ∷ [])) bad_frame)
    ≡ answer (receive (reset receiver) bad_frame)
receive-run_example =
    receive-run receiver (bad_frame ∷ []) bad_frame (bad_frame-Agrees, tt) bad_frame-Agrees

abbrev block : List ℕ
block = 1 ∷ 2 ∷ 7 ∷ 8 ∷ []

receive-link_encode_example :
    (f : List ℕ) × (link_encode block 3 1 ≡ some f)
    × AgreesFrame f
    × ((t : HarqRx) × (receive
            (aether_stack.Core.Harq.Rx.History.run (reset receiver) (bad_frame ∷ []))
            f
          ≡ received (delivered_result block 3) t))
receive-link_encode_example =
    receive-link_encode block 3 1 receiver (bad_frame ∷ []) (omega arith) (omega arith)
      (omega arith) (omega arith) (bad_frame-Agrees, tt)

abbrev short_header : Header
short_header = record { proc = 2; ndi = 0; rv = 0; len = 1; info_len = 1 }

receive_crashes_iff_example : (receive receiver short_frame ≡ crashed) ↔ (short_header.len ≡ 1)
receive_crashes_iff_example =
    receive_crashes_iff receiver short_frame short_header (unfold unpack in refl) (omega arith)

abbrev config : Config
config = record { num_processes = 2; max_retx = 3; ack_timeout_ms = 40 }

abbrev lossy : List Call
lossy =
    advances 5
    ∷ sends block
    ∷ sends (9 ∷ [])
    ∷ nacks 0
    ∷ polls 100
    ∷ acks 1
    ∷ nacks 0
    ∷ nacks 0
    ∷ resets
    ∷ []

run-AllExplained_example : AllExplained [] (aether_stack.Core.Harq.Tx.run (init config) lossy).1
run-AllExplained_example =
    run-AllExplained config lossy
      (tt, (omega arith, (omega arith, (tt, (tt, (tt, (tt, (tt, (tt, tt)))))))))

repeats-run-le_example :
    repeats (aether_stack.Core.Harq.Tx.run (init config) lossy).1
    ≤ 3 * new_blocks (aether_stack.Core.Harq.Tx.run (init config) lossy).1
repeats-run-le_example =
    repeats-run-le config lossy (omega arith)
      (tt, (omega arith, (omega arith, (tt, (tt, (tt, (tt, (tt, (tt, tt)))))))))

abbrev idle_tx : HarqTx
idle_tx = record { cfg = config; procs = fresh_proc ∷ fresh_proc ∷ []; next_proc = 1; last_now = 0 }

idle_tx-WellFormed : WellFormed idle_tx
idle_tx-WellFormed = record {
  some_procs = omega arith;
  few_procs = omega arith;
  all_procs = refl;
  next_lt = omega arith;
}

send_refuses_iff_example :
    (send idle_tx block ≡ all_busy) ↔ ((p : ℕ) → p < 2 → (proc_at idle_tx p).busy ≡ true)
send_refuses_iff_example = send_refuses_iff idle_tx block idle_tx-WellFormed (omega arith)

send_accepts_example :
    (e : Event) × ((t : HarqTx) × (send idle_tx block ≡ sent e t) × Accepted idle_tx block e t)
send_accepts_example =
    send_accepts idle_tx block 1 idle_tx-WellFormed (omega arith) (omega arith) refl

-- A periodic timer that is due, a one-shot timer that is due just past the wrap of the clock, and
-- one that is not.
abbrev three_timers : TimerList
three_timers = record {
  entries =
      record { id = 1; deadline = 4294967290; interval = 10; cb = 0 }
      ∷ record { id = 2; deadline = 3; interval = 0; cb = 1 }
      ∷ record { id = 3; deadline = 50; interval = 0; cb = 2 }
      ∷ [];
  next_id = 4;
  last_now = 4294967280;
}

abbrev cancelling : ℕ → List Command
cancelling k = cancels 2 ∷ []

tick_fires_example : Due 5 three_timers.entries (tick (λ k. []) three_timers 5).fired
tick_fires_example = tick_fires (λ k. []) three_timers 5 (λ k. refl) distinct words (omega arith)
  where
    distinct : Distinct three_timers.entries
    distinct = unfold find_entry in (refl, (refl, (refl, tt)))

    words : AllWords three_timers.entries
    words = (omega arith, (omega arith, (omega arith, tt)))
