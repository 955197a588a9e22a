-- ===== src/Cn/Upf.antt =====
-- stack/cn/src/upf.cpp and stack/cn/include/cn/upf.h: the anchor of the user plane. The second
-- component of a result is what goes to the sink of uplink data; the log lines are left out.
pub mod Routing
use aether_stack.Base.{
  ℕ, List, [], ◌∷◌, ◌++◌, Option, none, some, length, drop, ltb, ◌==◌, if◌then◌else◌, lookup, put,
}
use aether_stack.Cn.Messages.{CnMessage, ul_data, dl_data, path_switch, put16, put32, get16, get32}

pub record Route : Type 0 where
  pub rnti : ℕ
  pub gnb_cell : ℕ

pub record Upf : Type 0 where
  pub routes : List (ℕ × Route)

-- `routes_[tmsi]`, which makes a missing route.
unfoldable pub route_or_new : Option Route → Route
route_or_new none = record { rnti = 0; gnb_cell = 0 }
route_or_new (some r) = r

unfoldable pub on_ul_data : Upf → List ℕ → Upf × List (ℕ × List ℕ)
unfolding route_or_new
on_ul_data u value =
    let tmsi = get32 value 0 in
    let r = route_or_new (lookup ◌==◌ u.routes tmsi) in
    if ltb (length value) 6 then (u, []) else (
      record u { routes = put ◌==◌ u.routes tmsi (record r { rnti = get16 value 4 }) },
      (tmsi, drop 6 value) ∷ [],
    )

unfoldable pub on_path_switch : Upf → List ℕ → Upf
on_path_switch u value = if ltb (length value) 8 then u else record u {
  routes =
      put ◌==◌ u.routes (get32 value 0) (record { rnti = get16 value 4; gnb_cell = get16 value 6 });
}

unfoldable pub handle : Upf → CnMessage → Upf × List (ℕ × List ℕ)
unfolding on_ul_data on_path_switch
handle u msg =
    if msg.msg_type == ul_data
    then on_ul_data u msg.value
    else if msg.msg_type == path_switch
    then (on_path_switch u msg.value, [])
    else (u, [])

unfoldable pub dl_message : ℕ → List ℕ → Option Route → List CnMessage
dl_message tmsi pdu none = []
dl_message tmsi pdu (some r) =
    record { msg_type = dl_data; value = put32 tmsi ++ (put16 r.rnti ++ pdu) } ∷ []

-- What goes to the link; the sink of downlink data gets the PDU in any case.
unfoldable pub send_downlink : Upf → ℕ → List ℕ → List CnMessage
unfolding dl_message
send_downlink u tmsi pdu = dl_message tmsi pdu (lookup ◌==◌ u.routes tmsi)
