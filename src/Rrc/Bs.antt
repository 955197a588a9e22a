-- ===== src/Rrc/Bs.antt =====
-- stack/rrc/src/rrc_bs.cpp and stack/rrc/include/rrc/rrc_bs.h. The map of contexts is an association
-- list, and `order` the order in which the library's hash map is run through. The second component
-- of a result is what the callbacks are called with, in order; the log lines are left out.
pub mod Keys
use aether_stack.Base.{
  lookup, put, remove, ℕ, ◌+◌, ◌*◌, ◌/◌, ◌^◌, List, [], ◌∷◌, ◌++◌, Option, none, some, Bool, true,
  false, not, ◌&&◌, ◌||◌, bit_and, bit_or, length, get_or, ltb, leb, ◌==◌, if◌then◌else◌, u16, u32,
}
use aether_stack.Base.Endian.{bytes32, word32}
use aether_stack.Rrc.Messages.{
  Mib, Sib1, generate_mib, put_word, get_word, encode, decode, setup_request, setup, setup_complete,
  release_type, resume_request, resume_ok, resume_failure, reestablishment_request,
  reestablishment_ok, reestablishment_failure,
}
use aether_stack.Rrc.Ue.{UeState, idle, connecting, connected, inactive}

pub record RrcContext : Type 0 where
  pub c_rnti : ℕ
  pub state : UeState
  pub resume_id : ℕ

pub record RrcBs : Type 0 where
  pub sib1 : Sib1
  pub ue_contexts : List (ℕ × RrcContext)
  pub next_crnti : ℕ
  pub crnti_base : ℕ
  pub next_resume_seq : ℕ

-- A call of one of the callbacks.
pub data BsOutput : Type 0 where
  send_to : ℕ → List ℕ → BsOutput
  reest_cb : ℕ → ℕ → BsOutput
  parked : ℕ → BsOutput

unfoldable pub set_crnti_base : RrcBs → ℕ → RrcBs
set_crnti_base b base = record b { next_crnti = base; crnti_base = base }

unfoldable pub set_cell_identity : RrcBs → ℕ → List ℕ → ℕ → RrcBs
set_cell_identity b cell_id plmn_id tac = record b {
  sib1 = record { plmn_id = plmn_id; tac = tac; cell_id = cell_id };
}

unfoldable pub broadcast_mib : Mib
broadcast_mib = generate_mib 0

unfoldable pub store : RrcBs → ℕ → RrcContext → RrcBs
store b rnti ctx = record b { ue_contexts = put ◌==◌ b.ue_contexts rnti ctx }

unfoldable pub is_in_use : UeState → Bool
is_in_use idle = false
is_in_use connecting = false
is_in_use connected = true
is_in_use inactive = false

unfoldable pub is_parked : UeState → Bool
is_parked idle = false
is_parked connecting = false
is_parked connected = false
is_parked inactive = true

unfoldable pub suspend_known : RrcBs → ℕ → RrcContext → RrcBs × List BsOutput
unfolding store put_word
suspend_known b rnti ctx =
    let id = bit_or (u32 (rnti * 2 ^ 16)) b.next_resume_seq in
    (
      store (record b { next_resume_seq = u32 (b.next_resume_seq + 1) }) rnti
          (record ctx { state = inactive; resume_id = id }),
      send_to rnti
            (encode (record { msg_type = release_type; value = put_word rnti ++ 1 ∷ bytes32 id }))
          ∷ parked rnti
          ∷ [],
    )

unfoldable pub suspend_found : RrcBs → ℕ → Option RrcContext → RrcBs × List BsOutput
unfolding is_in_use suspend_known
suspend_found b rnti none = (b, [])
suspend_found b rnti (some ctx) = if is_in_use ctx.state then suspend_known b rnti ctx else (b, [])

unfoldable pub suspend_context : RrcBs → ℕ → RrcBs × List BsOutput
unfolding suspend_found
suspend_context b rnti = suspend_found b rnti (lookup ◌==◌ b.ue_contexts rnti)

-- The C-RNTI of the MAC, or the next one of the station, which is then used up.
unfoldable pub new_crnti : RrcBs → ℕ → ℕ
new_crnti b rnti = if not (rnti == 0) then rnti else b.next_crnti

unfoldable pub allocated : RrcBs → ℕ → RrcBs
allocated b rnti = if not (rnti == 0) then b else record b { next_crnti = u16 (b.next_crnti + 1) }

unfoldable pub is_foreign : RrcBs → List ℕ → Bool
unfolding get_word
is_foreign b value =
    leb 2 (length value) && not (get_word value 0 == 0) && not (get_word value 0 == b.sib1.cell_id)

unfoldable pub on_setup_request : RrcBs → ℕ → List ℕ → RrcBs × List BsOutput
unfolding is_foreign new_crnti allocated store put_word
on_setup_request b rnti value =
    let crnti = new_crnti b rnti in
    if is_foreign b value then (b, []) else (
      store (allocated b rnti) crnti (record { c_rnti = crnti; state = connecting; resume_id = 0 }),
      send_to crnti (encode (record { msg_type = setup; value = put_word crnti })) ∷ [],
    )

-- A context that is known gets another state.
unfoldable pub set_state : RrcBs → ℕ → Option RrcContext → UeState → RrcBs
unfolding store
set_state b rnti none state = b
set_state b rnti (some ctx) state = store b rnti (record ctx { state = state })

unfoldable pub on_setup_complete : RrcBs → ℕ → RrcBs
unfolding set_state
on_setup_complete b rnti = set_state b rnti (lookup ◌==◌ b.ue_contexts rnti) connected

unfoldable pub on_bs_release : RrcBs → ℕ → List ℕ → RrcBs × List BsOutput
unfolding suspend_context set_state
on_bs_release b rnti value =
    if leb 3 (length value) && not (bit_and (get_or value 2 0) 2 == 0)
    then suspend_context b rnti
    else (set_state b rnti (lookup ◌==◌ b.ue_contexts rnti) idle, [])

-- The identity of a request; bytes that are not there count as 0.
unfoldable pub requested_id : List ℕ → ℕ
requested_id value =
    word32 (get_or value 0 0) (get_or value 1 0) (get_or value 2 0) (get_or value 3 0)

unfoldable pub is_suspended_as : ℕ → ℕ × RrcContext → Bool
unfolding is_parked
is_suspended_as id e = is_parked e.1.state && (e.1.resume_id == id)

unfoldable pub find_suspended : ℕ → List (ℕ × RrcContext) → Option (ℕ × RrcContext)
unfolding is_suspended_as
find_suspended id [] = none
find_suspended id (e ∷ es) =
    let rest = find_suspended id es in if is_suspended_as id e then some e else rest

-- A context moves from one C-RNTI to another.
unfoldable pub migrate : RrcBs → ℕ → ℕ → RrcContext → RrcBs
unfolding store
migrate b old_crnti crnti ctx =
    store (record b { ue_contexts = remove ◌==◌ b.ue_contexts old_crnti }) crnti
      (record ctx { c_rnti = crnti })

unfoldable pub resume_found : RrcBs → ℕ → Option (ℕ × RrcContext) → RrcBs × List BsOutput
unfolding new_crnti allocated migrate put_word
resume_found b rnti none =
    (b, send_to rnti (encode (record { msg_type = resume_failure; value = [] })) ∷ [])
resume_found b rnti (some e) =
    let crnti = new_crnti b rnti in
    (
      migrate (allocated b rnti) e.0 crnti (record e.1 { state = connected; resume_id = 0 }),
      reest_cb e.0 crnti
          ∷ send_to crnti (encode (record { msg_type = resume_ok; value = put_word crnti }))
          ∷ [],
    )

unfoldable pub is_own_identity : RrcBs → ℕ → Bool
is_own_identity b id =
    leb b.crnti_base (u16 (id / 2 ^ 16)) && ltb (u16 (id / 2 ^ 16)) (b.crnti_base + 0x2000)

unfoldable pub reestablish_found : RrcBs → ℕ → ℕ → Option RrcContext → RrcBs × List BsOutput
unfolding new_crnti allocated migrate is_in_use put_word
reestablish_found b rnti old_crnti none =
    (b, send_to rnti (encode (record { msg_type = reestablishment_failure; value = [] })) ∷ [])
reestablish_found b rnti old_crnti (some ctx) =
    let crnti = new_crnti b rnti in
    if old_crnti == 0 || not (is_in_use ctx.state)
    then (b, send_to rnti (encode (record { msg_type = reestablishment_failure; value = [] })) ∷ [])
    else (
      migrate (allocated b rnti) old_crnti crnti ctx,
      reest_cb old_crnti crnti
          ∷ send_to crnti
              (encode (record { msg_type = reestablishment_ok; value = put_word crnti }))
          ∷ [],
    )

unfoldable pub on_reestablishment : RrcBs → ℕ → List ℕ → RrcBs × List BsOutput
unfolding reestablish_found get_word
on_reestablishment b rnti value =
    let old_crnti = if leb 2 (length value) then get_word value 0 else 0 in
    reestablish_found b rnti old_crnti (lookup ◌==◌ b.ue_contexts old_crnti)

module _ (order : List (ℕ × RrcContext) → List (ℕ × RrcContext)) where
  unfoldable pub on_resume_request : RrcBs → ℕ → List ℕ → RrcBs × List BsOutput
  unfolding requested_id is_own_identity find_suspended resume_found
  on_resume_request b rnti value =
      let id = requested_id value in
      if is_own_identity b id
      then resume_found b rnti (find_suspended id (order b.ue_contexts))
      else (b, [])

  unfoldable pub handle_message : RrcBs → ℕ → List ℕ → RrcBs × List BsOutput
  unfolding on_setup_request on_setup_complete on_bs_release on_resume_request on_reestablishment
  handle_message b rnti pdu =
      let msg = decode pdu in
      if msg.msg_type == setup_request
      then on_setup_request b rnti msg.value
      else if msg.msg_type == setup_complete
      then (on_setup_complete b rnti, [])
      else if msg.msg_type == release_type
      then on_bs_release b rnti msg.value
      else if msg.msg_type == resume_request
      then on_resume_request b rnti msg.value
      else if msg.msg_type == reestablishment_request
      then on_reestablishment b rnti msg.value
      else (b, [])

unfoldable pub reactivate_found : RrcBs → ℕ → Option RrcContext → RrcBs
unfolding is_parked store
reactivate_found b rnti none = b
reactivate_found b rnti (some ctx) =
    if is_parked ctx.state
    then store b rnti (record ctx { state = connected; resume_id = 0 })
    else b

unfoldable pub reactivate_context : RrcBs → ℕ → RrcBs
unfolding reactivate_found
reactivate_context b rnti = reactivate_found b rnti (lookup ◌==◌ b.ue_contexts rnti)

unfoldable pub is_ue_connected : RrcBs → ℕ → Bool
unfolding is_in_use
is_ue_connected b rnti = elim (lookup ◌==◌ b.ue_contexts rnti) [
  | none ↦ false
  | some ctx ↦ is_in_use ctx.state
]

unfoldable pub find_rrc_ue : RrcBs → ℕ → Option RrcContext
find_rrc_ue b rnti = lookup ◌==◌ b.ue_contexts rnti

unfoldable pub admit_connected : RrcBs → ℕ → RrcBs
unfolding store
admit_connected b crnti =
    store b crnti (record { c_rnti = crnti; state = connected; resume_id = 0 })

unfoldable pub release_context : RrcBs → ℕ → RrcBs
release_context b rnti = record b { ue_contexts = remove ◌==◌ b.ue_contexts rnti }
