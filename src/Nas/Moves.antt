-- ===== src/Nas/Moves.antt =====
-- stack/nas/src/nas_ue.cpp and the machine of the registration: three states, and what an operation
-- makes of each, without the keys and the other fields of a UE.
pub mod History
use aether_stack.Base.{
  ℕ, ◌*◌, ◌≡◌, refl, sym, ap, ◌∙◌, ==_iff, ◌⊎◌, inl, inr, List, [], ◌∷◌, Option, none, some, Bool,
  true, false, not, ◌||◌, length, take, drop, leb, ◌==◌, if◌then◌else◌, Bool-cases,
}
use aether_stack.Nas.Aka.{verify_autn}
use aether_stack.Nas.Messages.{attach_accept, attach_reject, auth_request, decode}
use aether_stack.Nas.Ue.{
  UeState, deregistered, registering, registered, NasUe, transition, send_attach_request,
  send_detach, force_deregistered, is_registering, answer, on_auth_request, on_accept, on_reject,
  on_message,
}

-- What the layers around a UE call.
pub data Operation : Type 0 where
  attach_to : List ℕ → Operation
  detach_now : Operation
  force : Operation
  take_message : List ℕ → Operation

unfoldable pub operate : NasUe → Operation → NasUe
operate u (attach_to imsi) = (send_attach_request u imsi).0
operate u detach_now = (send_detach u).0
operate u force = force_deregistered u
operate u (take_message pdu) = (on_message u pdu).0

unfoldable pub operate_all : NasUe → List Operation → NasUe
unfolding operate
operate_all u [] = u
operate_all u (o ∷ os) = operate_all (operate u o) os

-- What an operation means to the registration, whatever the state of the UE.
unfoldable pub accepts : Operation → Bool
accepts (attach_to imsi) = false
accepts detach_now = false
accepts force = false
accepts (take_message pdu) = (decode pdu).msg_type == attach_accept

unfoldable pub rejects : Operation → Bool
rejects (attach_to imsi) = false
rejects detach_now = false
rejects force = false
rejects (take_message pdu) = (decode pdu).msg_type == attach_reject

unfoldable pub ends : Operation → Bool
ends (attach_to imsi) = false
ends detach_now = true
ends force = true
ends (take_message pdu) = false

unfoldable pub attaches : Operation → Bool
attaches (attach_to imsi) = true
attaches detach_now = false
attaches force = false
attaches (take_message pdu) = false

-- The registration machine.
unfoldable pub next : UeState → Operation → UeState
next deregistered o = if attaches o then registering else deregistered
next registering o =
    if accepts o then registered else if rejects o || ends o then deregistered else registering
next registered o = if ends o then deregistered else registered

send_attach_request-next :
    (u : NasUe) (imsi : List ℕ)
    → (send_attach_request u imsi).0.state ≡ next u.state (attach_to imsi)
send_attach_request-next u imsi = by_state u.state refl
  where
    by_state :
        (s : UeState)
        → u.state ≡ s
        → (send_attach_request u imsi).0.state ≡ next u.state (attach_to imsi)
    by_state deregistered e = unfold send_attach_request transition next attaches in rw e refl
    by_state registering e =
        unfold send_attach_request transition next accepts rejects ends in rw e refl
    by_state registered e = unfold send_attach_request transition next ends in rw e refl

send_detach-next : (u : NasUe) → (send_detach u).0.state ≡ next u.state detach_now
send_detach-next u = by_state u.state refl
  where
    by_state : (s : UeState) → u.state ≡ s → (send_detach u).0.state ≡ next u.state detach_now
    by_state deregistered e = unfold send_detach transition next attaches in rw e refl
    by_state registering e = unfold send_detach transition next accepts rejects ends in rw e refl
    by_state registered e = unfold send_detach transition next ends in rw e refl

force_deregistered-next : (u : NasUe) → (force_deregistered u).state ≡ next u.state force
force_deregistered-next u = by_state u.state refl
  where
    by_state : (s : UeState) → u.state ≡ s → (force_deregistered u).state ≡ next u.state force
    by_state deregistered e = unfold force_deregistered transition next attaches in rw e refl
    by_state registering e =
        unfold force_deregistered transition next accepts rejects ends in rw e refl
    by_state registered e = unfold force_deregistered transition next ends in rw e refl

answer-stays :
    (u : NasUe) (rand token : List ℕ) (o : Option ℕ) → (answer u rand token o).0.state ≡ u.state
unfolding answer
answer-stays u rand token none = refl
answer-stays u rand token (some sqn) = elim (Bool-cases (leb sqn u.sqn_ms)) [
  | inl old ↦ rw old refl
  | inr new ↦ rw new refl
]

on_auth_request-stays : (u : NasUe) (value : List ℕ) → (on_auth_request u value).0.state ≡ u.state
unfolding on_auth_request
on_auth_request-stays u value =
    by_guard (not (is_registering u) || not u.has_usim || not (length value == 2 * 16))
  where
    by_guard :
        (ignored : Bool)
        → (if ignored
            then (u, [])
            else answer u
                (take 16 value)
                (take 16 (drop 16 value))
                (verify_autn u.usim_key (take 16 value) (take 16 (drop 16 value)))).0.state
          ≡ u.state
    by_guard true = refl
    by_guard false =
        answer-stays u (take 16 value) (take 16 (drop 16 value))
          (verify_autn u.usim_key (take 16 value) (take 16 (drop 16 value)))

-- What a message makes of a state, by its type.
abbrev heard : UeState → ℕ → UeState
heard deregistered type = deregistered
heard registering type =
    if type == attach_accept
    then registered
    else if type == attach_reject || false
    then deregistered
    else registering
heard registered type = registered

on_accept-heard :
    (u : NasUe) (value : List ℕ) → (on_accept u value).state ≡ heard u.state attach_accept
on_accept-heard u value = by_state u.state refl
  where
    by_state : (s : UeState) → u.state ≡ s → (on_accept u value).state ≡ heard u.state attach_accept
    by_state deregistered e = unfold on_accept is_registering transition in rw e refl
    by_state registering e = unfold on_accept is_registering transition in rw e refl
    by_state registered e = unfold on_accept is_registering transition in rw e refl

on_reject-heard : (u : NasUe) → (on_reject u).state ≡ heard u.state attach_reject
on_reject-heard u = by_state u.state refl
  where
    by_state : (s : UeState) → u.state ≡ s → (on_reject u).state ≡ heard u.state attach_reject
    by_state deregistered e = unfold on_reject is_registering transition in rw e refl
    by_state registering e = unfold on_reject is_registering transition in rw e refl
    by_state registered e = unfold on_reject is_registering transition in rw e refl

heard_nothing :
    (s : UeState) (type : ℕ)
    → (type == attach_accept) ≡ false
    → (type == attach_reject) ≡ false
    → heard s type ≡ s
heard_nothing deregistered type a b = refl
heard_nothing registering type a b = rw (a, b) refl
heard_nothing registered type a b = refl

on_message-heard :
    (u : NasUe) (pdu : List ℕ) → (on_message u pdu).0.state ≡ heard u.state (decode pdu).msg_type
unfolding on_message
on_message-heard u pdu =
    let msg = decode pdu in
    elim (Bool-cases (msg.msg_type == auth_request)) [
      | inl a ↦
          let is_request = (==_iff msg.msg_type auth_request).0 a in
          rw a (
            on_auth_request-stays u msg.value
            ∙ sym (ap (heard u.state) is_request ∙ heard_nothing u.state auth_request refl refl))
      | inr a ↦ elim (Bool-cases (msg.msg_type == attach_accept)) [
        | inl b ↦
            rw (a, b)
              (on_accept-heard u msg.value
                ∙ ap (heard u.state) (sym ((==_iff msg.msg_type attach_accept).0 b)))
        | inr b ↦ elim (Bool-cases (msg.msg_type == attach_reject)) [
          | inl c ↦
              rw (a, b, c)
                (on_reject-heard u
                  ∙ ap (heard u.state) (sym ((==_iff msg.msg_type attach_reject).0 c)))
          | inr c ↦ rw (a, b, c) (sym (heard_nothing u.state msg.msg_type b c))
        ]
      ]
    ]

heard-next :
    (s : UeState) (pdu : List ℕ) → heard s (decode pdu).msg_type ≡ next s (take_message pdu)
unfolding next attaches accepts rejects ends
heard-next deregistered pdu = refl
heard-next registering pdu = refl
heard-next registered pdu = refl

operate-next : (u : NasUe) (o : Operation) → (operate u o).state ≡ next u.state o
unfolding operate
operate-next u (attach_to imsi) = send_attach_request-next u imsi
operate-next u detach_now = send_detach-next u
operate-next u force = force_deregistered-next u
operate-next u (take_message pdu) = on_message-heard u pdu ∙ heard-next u.state pdu

unfoldable pub run : UeState → List Operation → UeState
run s [] = s
run s (o ∷ os) = run (next s o) os

pub operate_all-run : (u : NasUe) (os : List Operation) → (operate_all u os).state ≡ run u.state os
unfolding operate_all run
operate_all-run u [] = refl
operate_all-run u (o ∷ os) =
    operate_all-run (operate u o) os ∙ ap (λ s. run s os) (operate-next u o)
