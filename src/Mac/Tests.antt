-- ===== src/Mac/Tests.antt =====
-- Runs of the MAC layer at concrete inputs.
use aether_stack.Base.{
  ℕ, ◌*◌, ◌≤◌, ◌≡◌, ◌≢◌, refl, max, List, [], ◌∷◌, ◌++◌, none, some, arith, length, get_or,
}
use aether_stack.Mac.Pdu.{Sdu, build_pdu, parse_pdu, parse_loop}
use aether_stack.Mac.Pdu.RoundTrip.{parse_pdu-build_pdu}
use aether_stack.Mac.Pdu.Bounds.{footprint, AllData, parse_pdu_bounds}
use aether_stack.Mac.Rach.{idle, cell_for_preamble, ra_rnti_for_preamble}
use aether_stack.Mac.Rach.Ue.{RachUe, Call, starts, rar_times_out, hears_rar, forces_idle}
use aether_stack.Mac.Rach.Ue.Attempts.{msg1s, starts_of, msg1s-run}
use aether_stack.Mac.Rach.Bs.{RachBs, Heard, prach, msg3}
use aether_stack.Mac.Rach.Bs.Grants.{grants, grants-run_distinct}
use aether_stack.Mac.Rach.Handshake.{exchange, Connects, exchange-Connects}

abbrev two_sdus : List Sdu
two_sdus = record { lcid = 1; bytes = 7 ∷ 8 ∷ [] } ∷ record { lcid = 60; bytes = 0 ∷ 1 ∷ [] } ∷ []

parse_pdu-build_pdu_example : parse_pdu (build_pdu two_sdus ++ (63 ∷ 0 ∷ 0 ∷ [])) ≡ two_sdus
parse_pdu-build_pdu_example = parse_pdu-build_pdu two_sdus (63 ∷ 0 ∷ 0 ∷ []) (omega arith) refl

-- The second length is longer than what is left.
abbrev cut_pdu : List ℕ
cut_pdu = 1 ∷ 2 ∷ 7 ∷ 8 ∷ 2 ∷ 9 ∷ 5 ∷ []

parse_pdu_bounds_example :
    (footprint (parse_pdu cut_pdu) ≤ length cut_pdu)
    × AllData (parse_pdu cut_pdu)
    × (parse_loop 20 cut_pdu ≡ parse_pdu cut_pdu)
parse_pdu_bounds_example = parse_pdu_bounds cut_pdu 20 (omega arith)

abbrev terminal : RachUe
terminal = record {
  preamble_index = 10;
  max_preamble_transmissions = 3;
  state = idle;
  assigned_ra_rnti = 0;
  assigned_crnti = 0;
  preamble_tx_count = 0;
}

abbrev station : RachBs
station = record { ue_contexts = []; cell_id = 1; next_crnti = 0x4601 }

exchange-Connects_example :
    Connects terminal station (exchange (some (5 ∷ 6 ∷ [])) terminal station)
exchange-Connects_example =
    exchange-Connects terminal station 5 (6 ∷ []) refl (unfold cell_for_preamble in refl)
      (omega arith)

abbrev no_answer : List Call
no_answer =
    starts ∷ rar_times_out ∷ hears_rar 0x4301 none ∷ rar_times_out ∷ rar_times_out ∷ starts ∷ []

msg1s-run_example :
    msg1s (aether_stack.Mac.Rach.Ue.run terminal no_answer).1 ≤ max 3 1 * starts_of no_answer
msg1s-run_example = msg1s-run terminal no_answer refl refl (omega arith)

abbrev two_terminals : List Heard
two_terminals =
    prach 10 ∷ prach 11 ∷ msg3 0x430a (3 ∷ 10 ∷ 67 ∷ 1 ∷ []) ∷ prach 40 ∷ msg3 0x430b [] ∷ []

two_grants : length (grants (aether_stack.Mac.Rach.Bs.run station two_terminals).1) ≡ 2
unfolding aether_stack.Mac.Rach.Bs.run ra_rnti_for_preamble cell_for_preamble
    aether_stack.Mac.Rach.Bs.put_context
two_grants = refl

grants-run_distinct_example :
    get_or (grants (aether_stack.Mac.Rach.Bs.run station two_terminals).1) 0 0
    ≢ get_or (grants (aether_stack.Mac.Rach.Bs.run station two_terminals).1) 1 0
grants-run_distinct_example =
    grants-run_distinct station two_terminals 0 1 (omega arith) (omega (arith, two_grants))
      (omega arith) (omega (arith, two_grants))
