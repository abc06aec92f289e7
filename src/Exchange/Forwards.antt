-- ===== src/Exchange/Forwards.antt =====
-- The callbacks of the exchange and its buffer (forwarder/exchange.go).
use packet_handling.Base.{
  ℕ, String, ◌≡◌, refl, Bool, some, List, [], ◌∷◌, Option-cases, Bool-cases, inl, inr,
}
use packet_handling.GoMap.{lookup}
use packet_handling.Wire.{
  UplinkFrame, DownlinkTxAck, GatewayToRouterBody, downlink_tx_ack_event, status_event,
  GatewayEvent,
}
use packet_handling.GatewayIds.{bytes_to_gateway_id}
use packet_handling.GatewayStore.{
  Gateway, Maps, by_parsed, by_local_id, by_local_id_string, or_not_found,
}
use packet_handling.UnknownGateways.{Answers}
use packet_handling.UnknownGateways.Once.{record_gateway-IsSound}
use packet_handling.Exchange.{
  local_downlink_tx_ack_to_network, join_accept, unconfirmed_data_down, confirmed_data_down,
  proprietary, Externals, Exchange, is_maybe_mapper_packet, MType, unconfirmed_data_up,
  confirmed_data_up, join_request, rejoin_request, MacPayload, mac_payload, join_request_payload,
  other_payload,
}
use packet_handling.Exchange.Handlers.{
  network_frame, owner_bytes, event_of, empty_event, unknown, uplink_event, data_up, join_up,
  dispatch, uplink_frame_callback, subscribe_event, downlink_tx_ack,
}
use packet_handling.Exchange.Orderly.{carried, IsTrusted, IsOrderly, try_broadcast-IsOrderly}

module _ (ext : Externals) (ans : Answers) (now : ℕ) where
  unknown-IsOrderly : (id : ℕ) (s : Exchange) → IsOrderly s → IsOrderly (unknown ext ans now id s)
  unknown-IsOrderly id s o = record {
    trusted = o.trusted;
    bounded = o.bounded;
    recorder = (record_gateway-IsSound ans now id id s.recorder o.recorder).0;
  }

  trusted :
      (local_id : ℕ) (gw : Gateway) (body : GatewayToRouterBody) (e : GatewayEvent) (s : Maps)
      → lookup local_id s.by_local_id ≡ some gw
      → e.received_from ≡ gw.network_id
      → carried e ≡ event_of gw body ∷ []
      → IsTrusted s e
  trusted local_id gw body e s h f c = record {
    local_id = local_id;
    gateway = gw;
    body = body;
    in_store = h;
    from = f;
    one = c;
  }

  data_up-IsOrderly :
      (local_id : ℕ) (gw : Gateway) (frame : UplinkFrame) (payload : MacPayload) (s : Exchange)
      → IsOrderly s
      → lookup local_id s.gateways.by_local_id ≡ some gw
      → IsOrderly (data_up ext ans now gw frame payload s).0
  unfolding uplink_event
  data_up-IsOrderly local_id gw frame (mac_payload mac) s o h =
      elim (Bool-cases (is_maybe_mapper_packet (network_frame ext ans now gw frame) mac)) [
        | inl y ↦ rw y o
        | inr n ↦ rw n (
            try_broadcast-IsOrderly
              (record (empty_event gw) {
                uplink = some (mac.dev_addr, uplink_event ext ans now gw frame);
              })
              s o
              (trusted local_id gw (uplink_event ext ans now gw frame).body _ s.gateways h refl
                refl))
      ]
  data_up-IsOrderly local_id gw frame (join_request_payload dev_eui) s o h = o
  data_up-IsOrderly local_id gw frame other_payload s o h = o

  join_up-IsOrderly :
      (local_id : ℕ) (gw : Gateway) (frame : UplinkFrame) (payload : MacPayload) (s : Exchange)
      → IsOrderly s
      → lookup local_id s.gateways.by_local_id ≡ some gw
      → IsOrderly (join_up ext ans now gw frame payload s).0
  unfolding uplink_event
  join_up-IsOrderly local_id gw frame (mac_payload mac) s o h = o
  join_up-IsOrderly local_id gw frame (join_request_payload dev_eui) s o h =
      try_broadcast-IsOrderly
        (record (empty_event gw) { join = some (dev_eui, uplink_event ext ans now gw frame) }) s o
        (trusted local_id gw (uplink_event ext ans now gw frame).body _ s.gateways h refl refl)
  join_up-IsOrderly local_id gw frame other_payload s o h = o

  dispatch-IsOrderly :
      (local_id : ℕ) (gw : Gateway) (frame : UplinkFrame) (mtype : MType) (payload : MacPayload)
      (s : Exchange)
      → IsOrderly s
      → lookup local_id s.gateways.by_local_id ≡ some gw
      → IsOrderly
          (dispatch ext ans now gw frame (some (record { mtype = mtype; payload = payload })) s).0
  unfolding dispatch
  dispatch-IsOrderly local_id gw frame unconfirmed_data_up payload s o h =
      data_up-IsOrderly local_id gw frame payload s o h
  dispatch-IsOrderly local_id gw frame confirmed_data_up payload s o h =
      data_up-IsOrderly local_id gw frame payload s o h
  dispatch-IsOrderly local_id gw frame join_request payload s o h =
      join_up-IsOrderly local_id gw frame payload s o h
  dispatch-IsOrderly local_id gw frame rejoin_request payload s o h =
      join_up-IsOrderly local_id gw frame payload s o h
  dispatch-IsOrderly local_id gw frame join_accept payload s o h = o
  dispatch-IsOrderly local_id gw frame unconfirmed_data_down payload s o h = o
  dispatch-IsOrderly local_id gw frame confirmed_data_down payload s o h = o
  dispatch-IsOrderly local_id gw frame proprietary payload s o h = o

  by_string :
      (text : String) (id : ℕ) (s : Maps)
      → ext.store.parse_eui text ≡ some id
      → by_local_id_string ext.store text s ≡ or_not_found (lookup id s.by_local_id)
  unfolding by_local_id_string by_local_id by_parsed
  by_string text id s p = rw p refl

  pub uplink-IsOrderly :
      (frame : UplinkFrame) (s : Exchange)
      → IsOrderly s
      → IsOrderly (uplink_frame_callback ext ans now frame s).0
  unfolding uplink_frame_callback dispatch
  uplink-IsOrderly frame s o = elim (Option-cases (ext.store.parse_eui frame.gateway_id)) [
    | inl n ↦ rw (n, uplink_frame_callback) o
    | inr (id, p) ↦ elim (Option-cases (lookup id s.gateways.by_local_id)) [
      | inl n ↦
          rw (p, by_string frame.gateway_id id s.gateways p, n, uplink_frame_callback)
            (unknown-IsOrderly id s o)
      | inr (gw, h) ↦ elim (Option-cases (ext.unmarshal_phy frame.phy_payload)) [
        | inl n ↦ rw (p, by_string frame.gateway_id id s.gateways p, h, n, uplink_frame_callback) o
        | inr (phy, q) ↦
            rw (p, by_string frame.gateway_id id s.gateways p, h, q, uplink_frame_callback)
              (dispatch-IsOrderly id gw frame phy.mtype phy.payload s o h)
      ]
    ]
  ]

  pub subscribe-IsOrderly :
      (id : List ℕ) (online : Bool) (s : Exchange)
      → IsOrderly s
      → IsOrderly (subscribe_event ext ans now id online s)
  unfolding subscribe_event by_local_id
  subscribe-IsOrderly id online s o = elim (Option-cases (bytes_to_gateway_id id)) [
    | inl n ↦ rw (n, subscribe_event) o
    | inr (i, p) ↦ elim (Option-cases (lookup i s.gateways.by_local_id)) [
      | inl n ↦ rw (p, n, subscribe_event, by_local_id) (unknown-IsOrderly i s o)
      | inr (gw, h) ↦
          rw (p, h, subscribe_event, by_local_id)
            (try_broadcast-IsOrderly _ s o
              (trusted i gw (status_event online) _ s.gateways h refl refl))
    ]
  ]

  pub ack-IsOrderly :
      (ack : DownlinkTxAck) (s : Exchange)
      → IsOrderly s
      → IsOrderly (downlink_tx_ack ext ans now ack s)
  unfolding downlink_tx_ack by_local_id
  ack-IsOrderly ack s o = elim (Option-cases (ext.store.parse_eui ack.gateway_id)) [
    | inl n ↦ rw (n, downlink_tx_ack) o
    | inr (i, p) ↦ elim (Option-cases (lookup i s.gateways.by_local_id)) [
      | inl n ↦ rw (p, n, downlink_tx_ack, by_local_id) (unknown-IsOrderly i s o)
      | inr (gw, h) ↦
          rw (p, h, downlink_tx_ack, by_local_id)
            (try_broadcast-IsOrderly _ s o (
              trusted i gw
                (downlink_tx_ack_event (local_downlink_tx_ack_to_network ext gw ack)
                  (record { owner = owner_bytes gw; airtime = 0 }))
                _ s.gateways h refl refl))
    ]
  ]
