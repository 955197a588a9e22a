-- ===== src/Rrc/Ue.antt =====
-- stack/rrc/src/rrc_ue.cpp and stack/rrc/include/rrc/rrc_ue.h, and the states of rrc_types.h. The second component of
-- a result is what the send callback is called with; what the other two callbacks are called with is
-- an output too, and the log lines are left out.
pub mod History
use aether_stack.Base.{
  ℕ, List, [], ◌∷◌, Option, none, some, Bool, true, false, not, ◌&&◌, ◌||◌, bit_and, length, get_or,
  leb, ◌==◌, if◌then◌else◌, ◌++◌,
}
use aether_stack.Base.Endian.{word32}
use aether_stack.Rrc.Messages.{
  Mib, Sib1, put_word, get_word, encode, decode, setup_request, setup, setup_complete, release_type,
  resume_ok, resume_failure,
}

pub data UeState : Type 0 where
  idle : UeState
  connecting : UeState
  connected : UeState
  inactive : UeState

pub record RrcUe : Type 0 where
  pub state : UeState
  pub assigned_crnti : ℕ
  pub received_mib : Mib
  pub received_sib1 : Sib1
  pub resume_id : ℕ
  pub suspended_crnti : ℕ

-- A call of one of the callbacks.
pub data Output : Type 0 where
  send_cb : List ℕ → Output
  suspend_cb : ℕ → Output
  resume_cb : Bool → ℕ → Output

unfoldable pub transition : RrcUe → UeState → RrcUe
transition u new_state = record u { state = new_state }

unfoldable pub on_mib_received : RrcUe → Mib → RrcUe
on_mib_received u mib = record u { received_mib = mib }

unfoldable pub on_sib1_received : RrcUe → Sib1 → RrcUe
on_sib1_received u sib1 = record u { received_sib1 = sib1 }

-- A transition to the state that the UE is in changes nothing.
unfoldable pub restore_connected : RrcUe → ℕ → RrcUe
unfolding transition
restore_connected u crnti = elim u.state [
  | idle ↦ transition (record u { assigned_crnti = crnti }) connected
  | connecting ↦ transition (record u { assigned_crnti = crnti }) connected
  | connected ↦ record u { assigned_crnti = crnti }
  | inactive ↦ transition (record u { assigned_crnti = crnti }) connected
]

unfoldable pub start_connection : RrcUe → ℕ → RrcUe × List Output
unfolding transition put_word
start_connection u cell_id = elim u.state [
  | idle ↦ (
    transition u connecting,
    send_cb (
          encode (record {
            msg_type = setup_request;
            value = if not (cell_id == 0) then put_word cell_id else 0 ∷ [];
          }))
        ∷ [],
  )
  | connecting ↦ (u, [])
  | connected ↦ (u, [])
  | inactive ↦ (u, [])
]

unfoldable pub release : RrcUe → RrcUe × List Output
unfolding transition put_word
release u = elim u.state [
  | idle ↦ (u, [])
  | connecting ↦ (u, [])
  | connected ↦ (
    record (transition u idle) { assigned_crnti = 0 },
    send_cb (encode (record { msg_type = release_type; value = put_word u.assigned_crnti })) ∷ [],
  )
  | inactive ↦ (u, [])
]

unfoldable pub request_suspend : RrcUe → List Output
unfolding put_word
request_suspend u = elim u.state [
  | idle ↦ []
  | connecting ↦ []
  | connected ↦
      send_cb
        (encode (record { msg_type = release_type; value = put_word u.assigned_crnti ++ 2 ∷ [] }))
      ∷ []
  | inactive ↦ []
]

unfoldable pub force_idle : RrcUe → RrcUe
unfolding transition
force_idle u =
    let forced : RrcUe =
      transition (record u { assigned_crnti = 0; resume_id = 0; suspended_crnti = 0 }) idle in
    elim u.state [ idle ↦ u | connecting ↦ forced | connected ↦ forced | inactive ↦ forced ]

unfoldable pub start_resume : RrcUe → RrcUe
unfolding transition
start_resume u = elim u.state [
  | idle ↦ u
  | connecting ↦ u
  | connected ↦ u
  | inactive ↦ transition u connecting
]

-- A C-RNTI from the first two bytes of a value, or the one there was.
unfoldable pub crnti_of : List ℕ → ℕ → ℕ
unfolding get_word
crnti_of value known = if leb 2 (length value) then get_word value 0 else known

unfoldable pub on_setup : RrcUe → List ℕ → RrcUe × List Output
unfolding transition crnti_of put_word
on_setup u value =
    let crnti = crnti_of value u.assigned_crnti in
    elim u.state [
      | idle ↦ (u, [])
      | connecting ↦ (
        transition (record u { assigned_crnti = crnti }) connected,
        send_cb (encode (record { msg_type = setup_complete; value = put_word crnti })) ∷ [],
      )
      | connected ↦ (u, [])
      | inactive ↦ (u, [])
    ]

-- The flag that asks for suspension, in a value that is long enough for a resume identity.
unfoldable pub suspends : List ℕ → Bool
suspends value = leb 7 (length value) && not (bit_and (get_or value 2 0) 0x01 == 0)

unfoldable pub resume_id_of : List ℕ → ℕ
resume_id_of value =
    word32 (get_or value 3 0) (get_or value 4 0) (get_or value 5 0) (get_or value 6 0)

unfoldable pub on_release : RrcUe → List ℕ → RrcUe × List Output
unfolding transition suspends resume_id_of
on_release u value =
    let dropped : RrcUe × List Output = (transition (record u { assigned_crnti = 0 }) idle, []) in
    let id = resume_id_of value in
    elim u.state [
      | idle ↦ dropped
      | connecting ↦ dropped
      | connected ↦
          if suspends value
          then (
            transition (record u { suspended_crnti = u.assigned_crnti; resume_id = id }) inactive,
            suspend_cb id ∷ [],
          )
          else dropped
      | inactive ↦ dropped
    ]

unfoldable pub on_resume_ok : RrcUe → List ℕ → RrcUe × List Output
unfolding transition crnti_of
on_resume_ok u value =
    let new_crnti = crnti_of value u.assigned_crnti in
    elim u.state [
      | idle ↦ (u, [])
      | connecting ↦ if u.resume_id == 0 then (u, []) else (
        transition (record u { assigned_crnti = new_crnti; suspended_crnti = 0; resume_id = 0 })
            connected,
        resume_cb true new_crnti ∷ [],
      )
      | connected ↦ (u, [])
      | inactive ↦ (u, [])
    ]

unfoldable pub on_resume_failure : RrcUe → RrcUe × List Output
unfolding transition
on_resume_failure u = elim u.state [
  | idle ↦ (u, [])
  | connecting ↦ (
    transition (record u { assigned_crnti = 0; suspended_crnti = 0; resume_id = 0 }) idle,
    resume_cb false 0 ∷ [],
  )
  | connected ↦ (u, [])
  | inactive ↦ (u, [])
]

unfoldable pub on_message : RrcUe → List ℕ → RrcUe × List Output
unfolding on_setup on_release on_resume_ok on_resume_failure
on_message u pdu =
    let msg = decode pdu in
    if msg.msg_type == setup
    then on_setup u msg.value
    else if msg.msg_type == release_type
    then on_release u msg.value
    else if msg.msg_type == resume_ok
    then on_resume_ok u msg.value
    else if msg.msg_type == resume_failure
    then on_resume_failure u
    else (u, [])
