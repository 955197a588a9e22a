-- ===== src/Cn/Tests.antt =====
-- A handover at concrete inputs.
use aether_stack.Base.{arith, inr, ◌≡◌, refl, List, [], ◌∷◌, none, some}
use aether_stack.Cn.Messages.{CnMessage, dl_data, path_switch}
use aether_stack.Cn.Upf.{send_downlink}
use aether_stack.Cn.Upf.Routing.{
  AllWhole, last_rnti, handle_all, addressed, send_downlink-handle_all,
}

-- Uplink data of UE 1 under C-RNTI 9, of UE 2 under 8, and the handover of UE 1 to C-RNTI 7 in cell 3.
abbrev history : List CnMessage
history =
    record { msg_type = 32; value = 1 ∷ 0 ∷ 0 ∷ 0 ∷ 9 ∷ 0 ∷ 77 ∷ [] }
    ∷ record { msg_type = 32; value = 2 ∷ 0 ∷ 0 ∷ 0 ∷ 8 ∷ 0 ∷ [] }
    ∷ record { msg_type = 34; value = 1 ∷ 0 ∷ 0 ∷ 0 ∷ 7 ∷ 0 ∷ 3 ∷ 0 ∷ [] }
    ∷ []

send_downlink-handle_all_example :
    send_downlink (handle_all (record { routes = [] }) history) 1 (5 ∷ [])
    ≡ addressed 1 (5 ∷ []) (last_rnti none history 1)
send_downlink-handle_all_example = send_downlink-handle_all history 1 (5 ∷ []) whole
  where
    ul : 32 ≡ path_switch → ⊥
    ul e = omega (arith, e)

    whole : AllWhole history
    whole = (λ e. absurd (ul e), (λ e. absurd (ul e), (λ e. inr (omega arith), tt)))

last_rnti_run : last_rnti none history 1 ≡ some 7
unfolding last_rnti aether_stack.Cn.Messages.get32 aether_stack.Cn.Messages.get16
last_rnti_run = refl
