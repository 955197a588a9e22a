-- ===== src/Cn/Upf/Routing.antt =====
-- The routes against a specification that knows only the history of messages.
use aether_stack.Base.{
  ℕ, ◌<◌, ◌≤◌, ◌⊎◌, arith, not, ◌&&◌, ◌||◌, ◌≡◌, refl, sym, ap, ◌∙◌, List, [], ◌∷◌, ◌++◌, Option,
  none, some, Bool, true, false, length, ltb, ◌==◌, ==_iff, if◌then◌else◌, Bool-cases, inl, inr,
  lookup, put, lookup-put_self, lookup-put_other,
}
use aether_stack.Cn.Messages.{CnMessage, ul_data, dl_data, path_switch, put16, put32, get16, get32}
use aether_stack.Cn.Upf.{
  Route, Upf, route_or_new, on_ul_data, on_path_switch, handle, dl_message, send_downlink,
}

-- The C-RNTI that a message announces for a UE, in the format that both types are documented with:
-- four bytes of TMSI, two of C-RNTI.
unfoldable pub announces : CnMessage → ℕ → Option ℕ
announces msg tmsi =
    if (msg.msg_type == ul_data || msg.msg_type == path_switch) && not (ltb (length msg.value) 6)
    then (if get32 msg.value 0 == tmsi then some (get16 msg.value 4) else none)
    else none

-- The code asks a path switch for the cell as well: one of six or seven bytes, as it is documented, is
-- dropped.
abbrev pub IsWhole : CnMessage → Type 0
IsWhole msg = msg.msg_type ≡ path_switch → (length msg.value < 6) ⊎ (8 ≤ length msg.value)

abbrev pub AllWhole : List CnMessage → Type 0
AllWhole [] = Unit {0}
AllWhole (m ∷ ms) = IsWhole m × AllWhole ms

abbrev latest : Option ℕ → Option ℕ → Option ℕ
latest known none = known
latest known (some rnti) = some rnti

-- The last announcement, or what was known before.
unfoldable pub last_rnti : Option ℕ → List CnMessage → ℕ → Option ℕ
unfolding announces
last_rnti known [] tmsi = known
last_rnti known (m ∷ ms) tmsi = last_rnti (latest known (announces m tmsi)) ms tmsi

unfoldable pub handle_all : Upf → List CnMessage → Upf
handle_all u [] = u
handle_all u (m ∷ ms) = handle_all (handle u m).0 ms

rnti_of : Option Route → Option ℕ
rnti_of none = none
rnti_of (some r) = some r.rnti

abbrev routed : Upf → ℕ → Option ℕ
routed u tmsi = rnti_of (lookup ◌==◌ u.routes tmsi)

-- A route that is set is the UE's own, and no other's.
routed-put :
    (u : Upf) (k tmsi : ℕ) (r : Route)
    → rnti_of (lookup ◌==◌ (put ◌==◌ u.routes k r) tmsi)
      ≡ (if k == tmsi then some r.rnti else routed u tmsi)
unfolding rnti_of
routed-put u k tmsi r = elim (Bool-cases (k == tmsi)) [
  | inl e ↦ rw e (
      ap (λ j. rnti_of (lookup ◌==◌ (put ◌==◌ u.routes k r) j)) (sym ((==_iff k tmsi).0 e))
      ∙ ap rnti_of (lookup-put_self ◌==◌ u.routes k r ((==_iff k k).1 refl)))
  | inr e ↦ rw e (ap rnti_of (lookup-put_other u.routes k tmsi r e))
]

latest_if :
    (b : Bool) (known : Option ℕ) (rnti : ℕ)
    → (if b then some rnti else known) ≡ latest known (if b then some rnti else none)
latest_if true known rnti = refl
latest_if false known rnti = refl

handle-announces :
    (u : Upf) (m : CnMessage) (tmsi : ℕ)
    → IsWhole m
    → routed (handle u m).0 tmsi ≡ latest (routed u tmsi) (announces m tmsi)
unfolding handle on_ul_data on_path_switch announces
handle-announces u m tmsi whole =
    let k = get32 m.value 0 in
    let same = k == tmsi in
    let size = length m.value in
    elim (Bool-cases (m.msg_type == ul_data)) [
      | inl a ↦ elim (Bool-cases (ltb size 6)) [
        | inl short ↦ rw (a, short) refl
        | inr long ↦
            rw (a, long)
              (routed-put u k tmsi
                  (record (route_or_new (lookup ◌==◌ u.routes k)) { rnti = get16 m.value 4 })
                ∙ latest_if same (routed u tmsi) (get16 m.value 4))
      ]
      | inr a ↦ elim (Bool-cases (m.msg_type == path_switch)) [
        | inl b ↦ elim (whole ((==_iff m.msg_type path_switch).0 b)) [
          | inl few ↦
              let short : ltb size 8 ≡ true = ground (arith, few) in
              let shorter : ltb size 6 ≡ true = ground (arith, few) in
              rw (a, b, short, shorter) refl
          | inr many ↦
              let long : ltb size 8 ≡ false = ground (arith, many) in
              let longer : ltb size 6 ≡ false = ground (arith, many) in
              rw (a, b, long, longer)
                (routed-put u k tmsi (record { rnti = get16 m.value 4; gnb_cell = get16 m.value 6 })
                  ∙ latest_if same (routed u tmsi) (get16 m.value 4))
        ]
        | inr b ↦ rw (a, b) refl
      ]
    ]

routed-handle_all :
    (ms : List CnMessage) (u : Upf) (tmsi : ℕ)
    → AllWhole ms
    → routed (handle_all u ms) tmsi ≡ last_rnti (routed u tmsi) ms tmsi
unfolding handle_all last_rnti
routed-handle_all [] u tmsi w = refl
routed-handle_all (m ∷ ms) u tmsi w =
    routed-handle_all ms (handle u m).0 tmsi w.1
    ∙ ap (λ known. last_rnti known ms tmsi) (handle-announces u m tmsi w.0)

-- Downlink data for a UE under a C-RNTI, if one is known.
unfoldable pub addressed : ℕ → List ℕ → Option ℕ → List CnMessage
addressed tmsi pdu none = []
addressed tmsi pdu (some rnti) =
    record { msg_type = dl_data; value = put32 tmsi ++ (put16 rnti ++ pdu) } ∷ []

dl_message_lem :
    (tmsi : ℕ) (pdu : List ℕ) (o : Option Route)
    → dl_message tmsi pdu o ≡ addressed tmsi pdu (rnti_of o)
unfolding dl_message addressed rnti_of
dl_message_lem tmsi pdu none = refl
dl_message_lem tmsi pdu (some r) = refl

-- After any history of messages from an empty table, downlink data goes out once, under the C-RNTI
-- that the last uplink data or path switch of this very UE announced, and not at all if there was
-- none: messages of other UEs, other types and messages of less than six bytes change nothing. (No
-- path switch has just six or seven bytes: the code drops these.)
pub send_downlink-handle_all :
    (ms : List CnMessage) (tmsi : ℕ) (pdu : List ℕ)
    → AllWhole ms
    → send_downlink (handle_all (record { routes = [] }) ms) tmsi pdu
      ≡ addressed tmsi pdu (last_rnti none ms tmsi)
unfolding send_downlink
send_downlink-handle_all ms tmsi pdu whole =
    let u = handle_all (record { routes = [] }) ms in
    dl_message_lem tmsi pdu (lookup ◌==◌ u.routes tmsi)
    ∙ ap (addressed tmsi pdu) (
        routed-handle_all ms (record { routes = [] }) tmsi whole
        ∙ ap (λ o. last_rnti o ms tmsi) (unfold rnti_of in refl))
