-- ===== src/Rlc/Am.antt =====
-- stack/rlc/src/rlc_am.cpp and stack/rlc/include/rlc/rlc_am.h: acknowledged mode. Maps and sets keyed
-- by sequence numbers are lists in increasing order; a time of -1 is `none`. Segments are cut and
-- duplicates found as in `Rlc.Um`, whose functions are used; the log lines are left out.
pub mod Tx
pub mod Rx
pub mod Steps
pub mod Delivery
pub mod RoundTrip
pub mod Status
use aether_stack.Base.{ℕ}

pub record AmConfig : Type 0 where
  pub max_pdu_payload : ℕ
  pub tx_buffer_limit : ℕ
  pub poll_every : ℕ
  pub t_poll_ms : ℕ
  pub probe_batch : ℕ
  pub t_reorder_ms : ℕ

abbrev pub am_node_bearer_config : AmConfig
am_node_bearer_config = record {
  max_pdu_payload = 256;
  tx_buffer_limit = 64;
  poll_every = 4;
  t_poll_ms = 1000;
  probe_batch = 8;
  t_reorder_ms = 1000;
}

abbrev pub am_dc_data : ℕ
am_dc_data = 0x80

abbrev pub am_dc_control : ℕ
am_dc_control = 0x40

abbrev pub am_fi_mask : ℕ
am_fi_mask = 0x30

abbrev pub am_poll_bit : ℕ
am_poll_bit = 0x08
