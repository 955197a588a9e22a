-- ===== src/Rrc/Bs/Keys.antt =====
-- stack/rrc/src/rrc_bs.cpp: each context stands under its own C-RNTI.
use aether_stack.Base.{
  ℕ, ◌≡◌, refl, List, [], ◌∷◌, Option, none, some, Bool, true, false, not, ◌==◌, Bool-cases,
  if◌then◌else◌, inl, inr, ==_iff, ◌∙◌, lookup, put, remove, leb, length,
}
use aether_stack.Rrc.Messages.{
  decode, get_word, setup_request, setup_complete, release_type, resume_request,
  reestablishment_request,
}
use aether_stack.Rrc.Ue.{UeState, connected}
use aether_stack.Rrc.Bs.{
  find_suspended, RrcContext, RrcBs, BsOutput, store, is_in_use, is_parked, suspend_known,
  suspend_found, suspend_context, new_crnti, allocated, is_foreign, on_setup_request, set_state,
  on_setup_complete, on_bs_release, migrate, resume_found, reestablish_found, on_reestablishment,
  on_resume_request, handle_message, reactivate_found, reactivate_context, admit_connected,
  release_context, is_own_identity, requested_id,
}

-- The C-RNTI in each context is the key of its entry.
unfoldable pub AllKeyed : List (ℕ × RrcContext) → Type 0
AllKeyed [] = Unit
AllKeyed (e ∷ es) = (e.1.c_rnti ≡ e.0) × AllKeyed es

put-AllKeyed :
    (m : List (ℕ × RrcContext)) (k : ℕ) (ctx : RrcContext)
    → AllKeyed m
    → ctx.c_rnti ≡ k
    → AllKeyed (put ◌==◌ m k ctx)
unfolding AllKeyed
put-AllKeyed [] k ctx h e = (e, tt)
put-AllKeyed (x ∷ m) k ctx h e = elim (Bool-cases (x.0 == k)) [
  | inl s ↦ rw s (e, h.1)
  | inr s ↦ rw s (h.0, put-AllKeyed m k ctx h.1 e)
]

remove-AllKeyed : (m : List (ℕ × RrcContext)) (k : ℕ) → AllKeyed m → AllKeyed (remove ◌==◌ m k)
unfolding AllKeyed
remove-AllKeyed [] k h = tt
remove-AllKeyed (x ∷ m) k h = elim (Bool-cases (x.0 == k)) [
  | inl s ↦ rw s h.1
  | inr s ↦ rw s (h.0, remove-AllKeyed m k h.1)
]

-- What a lookup finds stands under the key looked for.
unfoldable Found : ℕ → Option RrcContext → Type 0
Found k none = Unit
Found k (some ctx) = ctx.c_rnti ≡ k

lookup-Found : (m : List (ℕ × RrcContext)) (k : ℕ) → AllKeyed m → Found k (lookup ◌==◌ m k)
unfolding AllKeyed Found
lookup-Found [] k h = tt
lookup-Found (x ∷ m) k h = elim (Bool-cases (x.0 == k)) [
  | inl s ↦ rw s (h.0 ∙ (==_iff x.0 k).0 s)
  | inr s ↦ rw s (lookup-Found m k h.1)
]

abbrev pub IsKeyed : RrcBs → Type 0
IsKeyed b = AllKeyed b.ue_contexts

either :
    (c : Bool) (x y : RrcBs × List BsOutput)
    → IsKeyed x.0
    → IsKeyed y.0
    → IsKeyed (if c then x else y).0
either true x y h k = h
either false x y h k = k

either_state : (c : Bool) (x y : RrcBs) → IsKeyed x → IsKeyed y → IsKeyed (if c then x else y)
either_state true x y h k = h
either_state false x y h k = k

module _ (b : RrcBs) (keyed : IsKeyed b) where
  found : (k : ℕ) → Found k (lookup ◌==◌ b.ue_contexts k)
  found k = lookup-Found b.ue_contexts k keyed

  stored : (k : ℕ) (ctx : RrcContext) → ctx.c_rnti ≡ k → IsKeyed (store b k ctx)
  unfolding store
  stored k ctx e = put-AllKeyed b.ue_contexts k ctx keyed e

  suspended :
      (k : ℕ) (known : Option RrcContext) → Found k known → IsKeyed (suspend_found b k known).0
  unfolding suspend_found suspend_known store Found
  suspended k none h = keyed
  suspended k (some ctx) h =
      either (is_in_use ctx.state) _ (b, []) (put-AllKeyed b.ue_contexts k _ keyed h) keyed

  state_set :
      (k : ℕ) (known : Option RrcContext) (s : UeState)
      → Found k known
      → IsKeyed (set_state b k known s)
  unfolding set_state Found
  state_set k none s h = keyed
  state_set k (some ctx) s h = stored k (record ctx { state = s }) h

  allocation : (rnti : ℕ) → IsKeyed (allocated b rnti)
  unfolding allocated
  allocation rnti = either_state (not (rnti == 0)) b _ keyed keyed

  migrated : (old k : ℕ) (ctx : RrcContext) → IsKeyed (migrate b old k ctx)
  unfolding migrate store
  migrated old k ctx =
      put-AllKeyed (remove ◌==◌ b.ue_contexts old) k _ (remove-AllKeyed b.ue_contexts old keyed)
        refl

  reactivated :
      (k : ℕ) (known : Option RrcContext) → Found k known → IsKeyed (reactivate_found b k known)
  unfolding reactivate_found Found
  reactivated k none h = keyed
  reactivated k (some ctx) h = either_state (is_parked ctx.state) _ b (stored k _ h) keyed

module _ (b : RrcBs) (keyed : IsKeyed b) (rnti : ℕ) where
  set_up : (value : List ℕ) → IsKeyed (on_setup_request b rnti value).0
  unfolding on_setup_request
  set_up value =
      either (is_foreign b value) (b, []) _ keyed
        (stored (allocated b rnti) (allocation b keyed rnti) (new_crnti b rnti) _ refl)

  let_go : (value : List ℕ) → IsKeyed (on_bs_release b rnti value).0
  unfolding on_bs_release suspend_context
  let_go value =
      either _ _ _ (suspended b keyed rnti _ (found b keyed rnti))
        (state_set b keyed rnti _ _ (found b keyed rnti))

  resumed : (e : Option (ℕ × RrcContext)) → IsKeyed (resume_found b rnti e).0
  unfolding resume_found
  resumed none = keyed
  resumed (some e) =
      migrated (allocated b rnti) (allocation b keyed rnti) e.0 (new_crnti b rnti)
        (record e.1 { state = connected; resume_id = 0 })

  reestablished :
      (old : ℕ) (known : Option RrcContext) → IsKeyed (reestablish_found b rnti old known).0
  unfolding reestablish_found
  reestablished old none = keyed
  reestablished old (some ctx) =
      either _ (b, _) _ keyed
        (migrated (allocated b rnti) (allocation b keyed rnti) old (new_crnti b rnti) ctx)

  asked_again : (value : List ℕ) → IsKeyed (on_reestablishment b rnti value).0
  unfolding on_reestablishment
  asked_again value =
      let old = if leb 2 (length value) then get_word value 0 else 0 in
      reestablished old (lookup ◌==◌ b.ue_contexts old)

  module _ (order : List (ℕ × RrcContext) → List (ℕ × RrcContext)) where
    asked_back : (value : List ℕ) → IsKeyed (on_resume_request order b rnti value).0
    unfolding on_resume_request
    asked_back value =
        either (is_own_identity b (requested_id value)) _ (b, [])
          (resumed (find_suspended (requested_id value) (order b.ue_contexts))) keyed

    handled : (pdu : List ℕ) → IsKeyed (handle_message order b rnti pdu).0
    unfolding handle_message on_setup_complete
    handled pdu =
        let msg = decode pdu in
        either (msg.msg_type == setup_request) (on_setup_request b rnti msg.value) _
          (set_up msg.value)
          (either (msg.msg_type == setup_complete) (on_setup_complete b rnti, []) _
            (state_set b keyed rnti _ _ (found b keyed rnti))
            (either (msg.msg_type == release_type) (on_bs_release b rnti msg.value) _
              (let_go msg.value)
              (either (msg.msg_type == resume_request) (on_resume_request order b rnti msg.value) _
                (asked_back msg.value)
                (either (msg.msg_type == reestablishment_request)
                  (on_reestablishment b rnti msg.value) (b, []) (asked_again msg.value) keyed))))

-- What the node around a station calls.
pub data Call : Type 0 where
  message : ℕ → List ℕ → Call
  suspend : ℕ → Call
  reactivate : ℕ → Call
  admit : ℕ → Call
  drop_context : ℕ → Call

module _ (order : List (ℕ × RrcContext) → List (ℕ × RrcContext)) where
  unfoldable pub call : RrcBs → Call → RrcBs
  call b (message rnti pdu) = (handle_message order b rnti pdu).0
  call b (suspend rnti) = (suspend_context b rnti).0
  call b (reactivate rnti) = reactivate_context b rnti
  call b (admit rnti) = admit_connected b rnti
  call b (drop_context rnti) = release_context b rnti

  unfoldable pub call_all : RrcBs → List Call → RrcBs
  unfolding call
  call_all b [] = b
  call_all b (c ∷ cs) = call_all (call b c) cs

  call-IsKeyed : (b : RrcBs) → IsKeyed b → (c : Call) → IsKeyed (call b c)
  unfolding call suspend_context reactivate_context admit_connected release_context
  call-IsKeyed b h (message rnti pdu) = handled b h rnti order pdu
  call-IsKeyed b h (suspend rnti) = suspended b h rnti _ (found b h rnti)
  call-IsKeyed b h (reactivate rnti) = reactivated b h rnti _ (found b h rnti)
  call-IsKeyed b h (admit rnti) = stored b h rnti _ refl
  call-IsKeyed b h (drop_context rnti) = remove-AllKeyed b.ue_contexts rnti h

-- Along any history of messages and calls each context of a station stands under its own C-RNTI, also
-- when a resume or a re-establishment moves it to another one. (It holds at the start; `order` is the
-- order in which the hash map is run through.)
pub call_all-IsKeyed :
    (order : List (ℕ × RrcContext) → List (ℕ × RrcContext)) (b : RrcBs)
    → IsKeyed b
    → (cs : List Call) → IsKeyed (call_all order b cs)
unfolding call_all
call_all-IsKeyed order b h [] = h
call_all-IsKeyed order b h (c ∷ cs) =
    call_all-IsKeyed order (call order b c) (call-IsKeyed order b h c) cs
