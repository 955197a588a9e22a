-- ===== src/Mac/Rach/Ue.antt =====
-- stack/mac/src/rach_ue.cpp, `RachUe`: the random access procedure of a terminal. The two windows of
-- the configuration are used by the node's timers and not here.
pub mod Attempts
use aether_stack.Base.{
  ℕ, suc, ◌+◌, List, [], ◌∷◌, ◌++◌, Option, none, some, not, leb, ◌==◌, if◌then◌else◌, u8,
}
use aether_stack.Mac.Rach.{
  ra_rnti_for_preamble, msg1_prach, msg3_rrc_req, msg_byte, RachState, idle, wait_rar,
  wait_contention_resolve, connected, Output, sends, moves, le16,
}

pub record RachUe : Type 0 where
  pub preamble_index : ℕ
  pub max_preamble_transmissions : ℕ
  pub state : RachState
  pub assigned_ra_rnti : ℕ
  pub assigned_crnti : ℕ
  pub preamble_tx_count : ℕ

unfoldable pub transition : RachUe → RachState → RachUe × List Output
transition u new_state = (record u { state = new_state }, moves u.state new_state ∷ [])

abbrev pub msg1 : RachUe → Output
msg1 u = sends msg1_prach (msg_byte msg1_prach ∷ u.preamble_index ∷ [])

unfoldable pub start_rach : RachUe → RachUe × List Output
unfolding transition
start_rach u = started u.state
  where
    started : RachState → RachUe × List Output
    started idle =
        let (t, moved) =
          transition (record u { preamble_tx_count = 1; assigned_ra_rnti = 0; assigned_crnti = 0 })
            wait_rar in
        (t, moved ++ (msg1 u ∷ []))
    started wait_rar = (u, [])
    started wait_contention_resolve = (u, [])
    started connected = (u, [])

unfoldable pub set_preamble_index : RachUe → ℕ → RachUe
set_preamble_index u i = record u { preamble_index = i }

-- What the provider of MSG3's payload returns, when there is one.
abbrev pub ccch_bytes : Option (List ℕ) → List ℕ
ccch_bytes none = []
ccch_bytes (some ccch) = ccch

unfoldable pub on_rar_received : RachUe → ℕ → Option (List ℕ) → RachUe × List Output
unfolding transition
on_rar_received u ra_rnti provided = answered u.state
  where
    answered : RachState → RachUe × List Output
    answered wait_rar =
        if not (ra_rnti == ra_rnti_for_preamble u.preamble_index)
        then (u, [])
        else (let (t, moved) =
              transition (record u { assigned_ra_rnti = ra_rnti }) wait_contention_resolve in
            (
              t,
              moved
                  ++ (sends msg3_rrc_req
                        (msg_byte msg3_rrc_req ∷ (le16 ra_rnti ++ ccch_bytes provided))
                      ∷ []),
            ))
    answered idle = (u, [])
    answered wait_contention_resolve = (u, [])
    answered connected = (u, [])

unfoldable pub on_contention_resolve : RachUe → ℕ → ℕ → RachUe × List Output
unfolding transition
on_contention_resolve u crnti ra_rnti = resolved u.state
  where
    resolved : RachState → RachUe × List Output
    resolved wait_contention_resolve =
        if not (ra_rnti == u.assigned_ra_rnti)
        then (u, [])
        else transition (record u { assigned_crnti = crnti }) connected
    resolved idle = (u, [])
    resolved wait_rar = (u, [])
    resolved connected = (u, [])

unfoldable pub on_rar_timeout : RachUe → RachUe × List Output
unfolding transition
on_rar_timeout u = timed_out u.state
  where
    timed_out : RachState → RachUe × List Output
    timed_out wait_rar =
        let count = u8 (u.preamble_tx_count + 1) in
        if leb count u.max_preamble_transmissions
        then (record u { preamble_tx_count = count }, msg1 u ∷ [])
        else transition (record u { preamble_tx_count = 0 }) idle
    timed_out idle = (u, [])
    timed_out wait_contention_resolve = (u, [])
    timed_out connected = (u, [])

unfoldable pub on_contention_resolve_timeout : RachUe → RachUe × List Output
unfolding transition
on_contention_resolve_timeout u = timed_out u.state
  where
    timed_out : RachState → RachUe × List Output
    timed_out wait_contention_resolve = transition u idle
    timed_out idle = (u, [])
    timed_out wait_rar = (u, [])
    timed_out connected = (u, [])

unfoldable pub force_idle : RachUe → RachUe × List Output
unfolding transition
force_idle u = forced u.state
  where
    forced : RachState → RachUe × List Output
    forced idle = (u, [])
    forced wait_rar = transition u idle
    forced wait_contention_resolve = transition u idle
    forced connected = transition u idle

-- The calls that a terminal makes on its procedure.
pub data Call : Type 0 where
  starts rar_times_out resolve_times_out forces_idle : Call
  retargets : ℕ → Call
  hears_rar : ℕ → Option (List ℕ) → Call
  hears_resolve : ℕ → ℕ → Call

unfoldable pub step : RachUe → Call → RachUe × List Output
unfolding start_rach set_preamble_index on_rar_received on_contention_resolve on_rar_timeout
    on_contention_resolve_timeout force_idle
step u starts = start_rach u
step u rar_times_out = on_rar_timeout u
step u resolve_times_out = on_contention_resolve_timeout u
step u forces_idle = force_idle u
step u (retargets i) = (set_preamble_index u i, [])
step u (hears_rar ra_rnti provided) = on_rar_received u ra_rnti provided
step u (hears_resolve crnti ra_rnti) = on_contention_resolve u crnti ra_rnti

unfoldable pub run : RachUe → List Call → RachUe × List Output
unfolding step
run u [] = (u, [])
run u (c ∷ cs) = let (t, os) = step u c in let (v, ps) = run t cs in (v, os ++ ps)
