-- ===== src/Nas/Ue.antt =====
-- stack/nas/src/nas_ue.cpp and stack/nas/include/nas/nas_ue.h. The second component of a result is
-- what the send callback is called with, in order; the log lines are left out.
use aether_stack.Base.Endian.{bytes32, word32}
use aether_stack.Base.{
  ℕ, ◌*◌, List, [], ◌∷◌, ◌++◌, Option, none, some, Bool, true, false, not, ◌||◌, length, take, drop,
  leb, ◌==◌, if◌then◌else◌, u8,
}
use aether_stack.Nas.Aka.{
  rand_len, autn_len, ak_len, cause_mac_failure, cause_synch_failure, f2, f3, f4, kasme,
  verify_autn, build_auts,
}
use aether_stack.Nas.Messages.{
  attach_request, attach_accept, attach_reject, detach, auth_request, auth_response, auth_failure,
  encode, decode,
}

pub data UeState : Type 0 where
  deregistered : UeState
  registering : UeState
  registered : UeState

pub record NasUe : Type 0 where
  pub state : UeState
  pub imsi : List ℕ
  pub assigned_tmsi : ℕ
  pub usim_key : List ℕ
  pub session_key : List ℕ
  pub has_usim : Bool
  pub authenticated : Bool
  pub auth_pending : Bool
  pub sqn_ms : ℕ

unfoldable pub transition : NasUe → UeState → NasUe
transition u new_state = record u { state = new_state }

unfoldable pub send_attach_request : NasUe → List ℕ → NasUe × List (List ℕ)
unfolding transition
send_attach_request u imsi = elim u.state [
  | deregistered ↦ (
    transition (record u { imsi = imsi; authenticated = false; auth_pending = false }) registering,
    encode (record { msg_type = attach_request; value = imsi }) ∷ [],
  )
  | registering ↦ (u, [])
  | registered ↦ (u, [])
]

unfoldable pub send_detach : NasUe → NasUe × List (List ℕ)
unfolding transition
send_detach u =
    let sent : NasUe × List (List ℕ) = (
      transition (record u { assigned_tmsi = 0 }) deregistered,
      encode (record { msg_type = detach; value = bytes32 u.assigned_tmsi }) ∷ [],
    ) in
    elim u.state [ deregistered ↦ (u, []) | registering ↦ sent | registered ↦ sent ]

unfoldable pub force_deregistered : NasUe → NasUe
unfolding transition
force_deregistered u =
    let forced : NasUe =
      transition (record u { assigned_tmsi = 0; authenticated = false; auth_pending = false })
        deregistered in
    elim u.state [ deregistered ↦ u | registering ↦ forced | registered ↦ forced ]

-- `send_failure`, the lambda of `on_message`.
unfoldable pub failure : NasUe → ℕ → List ℕ → List ℕ
failure u cause auts =
    encode
      (record { msg_type = auth_failure; value = cause ∷ u8 (length u.imsi) ∷ (u.imsi ++ auts) })

-- Steps 1 to 3 of a challenge, by the sequence number that AUTN carries.
unfoldable pub answer : NasUe → List ℕ → List ℕ → Option ℕ → NasUe × List (List ℕ)
unfolding failure
answer u rand token none = (u, failure u cause_mac_failure [] ∷ [])
answer u rand token (some sqn) =
    if leb sqn u.sqn_ms
    then (u, failure u cause_synch_failure (build_auts u.usim_key u.sqn_ms rand) ∷ [])
    else (
      record u {
        sqn_ms = sqn;
        session_key = kasme (f3 u.usim_key rand) (f4 u.usim_key rand) (take ak_len token);
        auth_pending = true;
      },
      encode (record { msg_type = auth_response; value = f2 u.usim_key rand }) ∷ [],
    )

unfoldable pub is_registering : NasUe → Bool
is_registering u = elim u.state [ deregistered ↦ false | registering ↦ true | registered ↦ false ]

unfoldable pub on_auth_request : NasUe → List ℕ → NasUe × List (List ℕ)
unfolding is_registering answer
on_auth_request u value =
    let rand = take rand_len value in
    let token = take autn_len (drop rand_len value) in
    if not (is_registering u) || not u.has_usim || not (length value == 2 * rand_len)
    then (u, [])
    else answer u rand token (verify_autn u.usim_key rand token)

-- `assigned_tmsi_`, when there are four bytes for it.
unfoldable pub given_tmsi : NasUe → List ℕ → ℕ
given_tmsi u [] = u.assigned_tmsi
given_tmsi u (a ∷ []) = u.assigned_tmsi
given_tmsi u (a ∷ b ∷ []) = u.assigned_tmsi
given_tmsi u (a ∷ b ∷ c ∷ []) = u.assigned_tmsi
given_tmsi u (a ∷ b ∷ c ∷ d ∷ bytes) = word32 a b c d

unfoldable pub on_accept : NasUe → List ℕ → NasUe
unfolding is_registering given_tmsi transition
on_accept u value =
    if is_registering u
    then transition
        (record u {
          assigned_tmsi = given_tmsi u value;
          authenticated = if u.auth_pending then true else u.authenticated;
          auth_pending = false;
        })
        registered
    else u

unfoldable pub on_reject : NasUe → NasUe
unfolding is_registering transition
on_reject u = if is_registering u then transition u deregistered else u

unfoldable pub on_message : NasUe → List ℕ → NasUe × List (List ℕ)
unfolding on_auth_request on_accept on_reject
on_message u pdu =
    let msg = decode pdu in
    if msg.msg_type == auth_request
    then on_auth_request u msg.value
    else if msg.msg_type == attach_accept
    then (on_accept u msg.value, [])
    else if msg.msg_type == attach_reject
    then (on_reject u, [])
    else (u, [])
