-- ===== src/Rrc/Tests.antt =====
-- Radio resource control at concrete inputs.
use aether_stack.Base.{◌≡◌, refl, List, [], ℕ, ◌∷◌, true, arith}
use aether_stack.Rrc.Messages.{generate_mib, generate_sib1, encode_sib1, decode_sib1, decode}
use aether_stack.Rrc.Messages.RoundTrip.{NoZero, decode_sib1-encode_sib1}
use aether_stack.Rrc.Ue.{
  idle, connected, inactive, RrcUe, Output, on_message, suspends, resume_id_of,
}
use aether_stack.Rrc.Ue.History.{
  IsSound, Holds, Operation, connect, take_message, operate_all, operate_all-IsSound,
}
use aether_stack.Rrc.Bs.{RrcContext, suspend_context, RrcBs, is_ue_connected}
use aether_stack.Rrc.Bs.Keys.{
  AllKeyed, IsKeyed, Call, message, suspend, admit, call_all, call_all-IsKeyed,
}

decode_sib1-encode_sib1_example : decode_sib1 (encode_sib1 generate_sib1) ≡ generate_sib1
unfolding generate_sib1 NoZero
decode_sib1-encode_sib1_example =
    decode_sib1-encode_sib1 generate_sib1 (omega arith) (omega arith) (omega arith)
      (omega arith, (omega arith, (omega arith, (omega arith, (omega arith, tt)))))

abbrev ue : RrcUe
ue = record {
  state = idle;
  assigned_crnti = 0;
  received_mib = generate_mib 0;
  received_sib1 = generate_sib1;
  resume_id = 0;
  suspended_crnti = 0;
}

-- A setup under C-RNTI 0x0107, and a release that suspends under the identity 5.
abbrev setup_pdu : List ℕ
setup_pdu = 2 ∷ 2 ∷ 0 ∷ 7 ∷ 1 ∷ []

abbrev suspend_pdu : List ℕ
suspend_pdu = 4 ∷ 7 ∷ 0 ∷ 7 ∷ 1 ∷ 1 ∷ 5 ∷ 0 ∷ 0 ∷ 0 ∷ []

abbrev ok_pdu : List ℕ
ok_pdu = 31 ∷ 2 ∷ 0 ∷ 9 ∷ 1 ∷ []

abbrev history : List Operation
history = connect 1 ∷ take_message setup_pdu ∷ take_message suspend_pdu ∷ []

operate_all-IsSound_example : IsSound (operate_all ue history)
unfolding Holds
operate_all-IsSound_example = operate_all-IsSound ue refl history

history_run : (operate_all ue history).state ≡ inactive
unfolding operate_all aether_stack.Rrc.Ue.History.operate aether_stack.Rrc.Ue.start_connection
    on_message aether_stack.Rrc.Ue.on_setup aether_stack.Rrc.Ue.on_release
    aether_stack.Rrc.Ue.transition decode suspends
history_run = refl

abbrev in_call : RrcUe
in_call = record ue { state = connected; assigned_crnti = 0x107 }

abbrev bs : RrcBs
bs = record {
  sib1 = generate_sib1;
  ue_contexts = [];
  next_crnti = 1;
  crnti_base = 1;
  next_resume_seq = 1;
}

-- A UE is admitted under C-RNTI 7, suspended under the identity (7, 1), and resumed under 9.
abbrev calls : List Call
calls = admit 7 ∷ suspend 7 ∷ message 9 (30 ∷ 4 ∷ 0 ∷ 1 ∷ 0 ∷ 7 ∷ 0 ∷ []) ∷ []

call_all-IsKeyed_example : IsKeyed (call_all (λ m. m) bs calls)
unfolding AllKeyed
call_all-IsKeyed_example = call_all-IsKeyed (λ m. m) bs tt calls

calls_run : is_ue_connected (call_all (λ m. m) bs calls) 9 ≡ true
unfolding call_all aether_stack.Rrc.Bs.Keys.call aether_stack.Rrc.Bs.handle_message
    aether_stack.Rrc.Bs.admit_connected aether_stack.Rrc.Bs.suspend_context
    aether_stack.Rrc.Bs.suspend_found aether_stack.Rrc.Bs.suspend_known aether_stack.Rrc.Bs.store
    aether_stack.Rrc.Bs.is_in_use aether_stack.Rrc.Bs.is_parked
    aether_stack.Rrc.Bs.on_resume_request aether_stack.Rrc.Bs.requested_id
    aether_stack.Rrc.Bs.is_own_identity aether_stack.Rrc.Bs.find_suspended
    aether_stack.Rrc.Bs.is_suspended_as aether_stack.Rrc.Bs.resume_found
    aether_stack.Rrc.Bs.new_crnti aether_stack.Rrc.Bs.allocated aether_stack.Rrc.Bs.migrate
    is_ue_connected aether_stack.Base.Endian.word32 decode
calls_run = refl

abbrev admitted : RrcContext
admitted = record { c_rnti = 0x107; state = connected; resume_id = 0 }
