-- ===== src/Rrc/Ue/History.antt =====
-- stack/rrc/src/rrc_ue.cpp along any history of calls and messages.
use aether_stack.Base.{ℕ, ◌≡◌, refl, subst, List, [], ◌∷◌, Bool, true, false, ◌==◌, if◌then◌else◌}
use aether_stack.Rrc.Messages.{Mib, Sib1, decode, setup, release_type, resume_ok, resume_failure}
use aether_stack.Rrc.Ue.{
  UeState, idle, connecting, connected, inactive, RrcUe, Output, transition, on_mib_received,
  on_sib1_received, restore_connected, start_connection, release, force_idle, start_resume,
  on_setup, suspends, on_release, on_resume_ok, on_resume_failure, on_message,
}

-- What holds in a state of the C-RNTI in use and the one kept for a resume.
unfoldable pub Holds : UeState → ℕ → ℕ → Type 0
Holds idle crnti kept = crnti ≡ 0
Holds connecting crnti kept = Unit
Holds connected crnti kept = Unit
Holds inactive crnti kept = kept ≡ crnti

abbrev pub IsSound : RrcUe → Type 0
IsSound u = Holds u.state u.assigned_crnti u.suspended_crnti

pub data Operation : Type 0 where
  take_mib : Mib → Operation
  take_sib1 : Sib1 → Operation
  restore : ℕ → Operation
  connect : ℕ → Operation
  release_now : Operation
  force : Operation
  resume : Operation
  take_message : List ℕ → Operation

unfoldable pub operate : RrcUe → Operation → RrcUe
operate u (take_mib mib) = on_mib_received u mib
operate u (take_sib1 sib1) = on_sib1_received u sib1
operate u (restore crnti) = restore_connected u crnti
operate u (connect cell_id) = (start_connection u cell_id).0
operate u release_now = (release u).0
operate u force = force_idle u
operate u resume = start_resume u
operate u (take_message pdu) = (on_message u pdu).0

unfoldable pub operate_all : RrcUe → List Operation → RrcUe
unfolding operate
operate_all u [] = u
operate_all u (o ∷ os) = operate_all (operate u o) os

module _ (u : RrcUe) (sound : IsSound u) where
  sound_at : (s : UeState) → u.state ≡ s → Holds s u.assigned_crnti u.suspended_crnti
  sound_at s e = subst (λ x. Holds x u.assigned_crnti u.suspended_crnti) e sound

  restored : (crnti : ℕ) → (s : UeState) → u.state ≡ s → IsSound (restore_connected u crnti)
  unfolding restore_connected transition Holds
  restored crnti idle e = rw e tt
  restored crnti connecting e = rw e tt
  restored crnti connected e = rw e tt
  restored crnti inactive e = rw e tt

  begun : (cell_id : ℕ) → (s : UeState) → u.state ≡ s → IsSound (start_connection u cell_id).0
  unfolding start_connection transition
  begun cell_id idle e = rw e (unfold Holds in tt)
  begun cell_id connecting e = rw e (sound_at connecting e)
  begun cell_id connected e = rw e (sound_at connected e)
  begun cell_id inactive e = rw e (sound_at inactive e)

  released : (s : UeState) → u.state ≡ s → IsSound (release u).0
  unfolding release transition
  released idle e = rw e (sound_at idle e)
  released connecting e = rw e (sound_at connecting e)
  released connected e = rw e (unfold Holds in refl)
  released inactive e = rw e (sound_at inactive e)

  forced : (s : UeState) → u.state ≡ s → IsSound (force_idle u)
  unfolding force_idle transition
  forced idle e = rw e (sound_at idle e)
  forced connecting e = rw e (unfold Holds in refl)
  forced connected e = rw e (unfold Holds in refl)
  forced inactive e = rw e (unfold Holds in refl)

  resumed : (s : UeState) → u.state ≡ s → IsSound (start_resume u)
  unfolding start_resume transition
  resumed idle e = rw e (sound_at idle e)
  resumed connecting e = rw e (sound_at connecting e)
  resumed connected e = rw e (sound_at connected e)
  resumed inactive e = rw e (unfold Holds in tt)

  either :
      (b : Bool) (x y : RrcUe × List Output)
      → IsSound x.0
      → IsSound y.0
      → IsSound (if b then x else y).0
  either true x y h k = h
  either false x y h k = k

  set_up : (value : List ℕ) → (s : UeState) → u.state ≡ s → IsSound (on_setup u value).0
  unfolding on_setup transition
  set_up value idle e = rw e (sound_at idle e)
  set_up value connecting e = rw e (unfold Holds in tt)
  set_up value connected e = rw e (sound_at connected e)
  set_up value inactive e = rw e (sound_at inactive e)

  let_go : (value : List ℕ) → (s : UeState) → u.state ≡ s → IsSound (on_release u value).0
  unfolding on_release transition
  let_go value idle e = rw e (unfold Holds in refl)
  let_go value connecting e = rw e (unfold Holds in refl)
  let_go value connected e =
      rw e (either (suspends value) _ _ (unfold Holds in refl) (unfold Holds in refl))
  let_go value inactive e = rw e (unfold Holds in refl)

  resumption_taken :
      (value : List ℕ) → (s : UeState) → u.state ≡ s → IsSound (on_resume_ok u value).0
  unfolding on_resume_ok transition
  resumption_taken value idle e = rw e (sound_at idle e)
  resumption_taken value connecting e =
      rw e (either (u.resume_id == 0) _ _ (unfold Holds in tt) (unfold Holds in tt))
  resumption_taken value connected e = rw e (sound_at connected e)
  resumption_taken value inactive e = rw e (sound_at inactive e)

  failed : (s : UeState) → u.state ≡ s → IsSound (on_resume_failure u).0
  unfolding on_resume_failure transition
  failed idle e = rw e (sound_at idle e)
  failed connecting e = rw e (unfold Holds in refl)
  failed connected e = rw e (sound_at connected e)
  failed inactive e = rw e (sound_at inactive e)

  message_heard : (pdu : List ℕ) → IsSound (on_message u pdu).0
  unfolding on_message
  message_heard pdu =
      let msg = decode pdu in
      either (msg.msg_type == setup) _ _ (set_up msg.value u.state refl) (
        either (msg.msg_type == release_type) _ _ (let_go msg.value u.state refl) (
          either (msg.msg_type == resume_ok) _ _ (resumption_taken msg.value u.state refl)
            (either (msg.msg_type == resume_failure) _ (u, []) (failed u.state refl) sound)))

operate-IsSound : (u : RrcUe) → IsSound u → (o : Operation) → IsSound (operate u o)
unfolding operate
operate-IsSound u h (take_mib mib) = unfold on_mib_received in h
operate-IsSound u h (take_sib1 sib1) = unfold on_sib1_received in h
operate-IsSound u h (restore crnti) = restored u h crnti u.state refl
operate-IsSound u h (connect cell_id) = begun u h cell_id u.state refl
operate-IsSound u h release_now = released u h u.state refl
operate-IsSound u h force = forced u h u.state refl
operate-IsSound u h resume = resumed u h u.state refl
operate-IsSound u h (take_message pdu) = message_heard u h pdu

-- Along any history of calls and messages a UE in IDLE has no C-RNTI, and an inactive one has kept
-- for its resume the C-RNTI that it had. (This holds at the start.)
pub operate_all-IsSound :
    (u : RrcUe) → IsSound u → (os : List Operation) → IsSound (operate_all u os)
unfolding operate_all
operate_all-IsSound u h [] = h
operate_all-IsSound u h (o ∷ os) = operate_all-IsSound (operate u o) (operate-IsSound u h o) os
