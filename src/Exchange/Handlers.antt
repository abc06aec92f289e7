-- ===== src/Exchange/Handlers.antt =====
-- The callbacks of the exchange (forwarder/exchange.go): each is one atomic step.
use packet_handling.Base.{ℕ, ◌/◌, ◌%◌, ◌^◌, Bool, Option, none, some, List, [], ◌∷◌, if◌then◌else◌}
use packet_handling.Wire.{
  RouterToGatewayEvent, downlink_frame_event, airtime_payment_event, unset_event, UplinkFrame,
  DownlinkFrame, DownlinkTxAck, GatewayToRouterBody, GatewayToRouterEvent, uplink_frame_event,
  downlink_tx_ack_event, status_event, GatewayEvent,
}
use packet_handling.GatewayIds.{compressed_pub_key_bytes, bytes_to_gateway_id}
use packet_handling.GatewayStore.{Gateway, ok, err, by_local_id, by_network_id, by_local_id_string}
use packet_handling.UnknownGateways.{Answers, record_gateway}
use packet_handling.Airtime.{uplink_airtime}
use packet_handling.Exchange.{
  Externals, Exchange, Effect, to_mapper, to_backend, add_payment, try_broadcast,
  is_maybe_mapper_packet, unconfirmed_data_up, confirmed_data_up, join_request, rejoin_request,
  MacPayload, mac_payload, join_request_payload, Phy, local_uplink_frame_to_network,
  local_downlink_tx_ack_to_network, network_downlink_frame_to_local,
  set_chaindata_in_frame_metadata,
}

-- `OwnerBytes`: the zero address where the gateway is not onboarded
abbrev pub owner_bytes : Gateway → ℕ
owner_bytes gw = elim gw.owner [ none ↦ 0 | some owner ↦ owner ]

-- A message to the routers on behalf of a gateway.
abbrev pub event_of : Gateway → GatewayToRouterBody → GatewayToRouterEvent
event_of gw body = record {
  public_key = compressed_pub_key_bytes gw.thingsix_id;
  owner = owner_bytes gw;
  body = body;
}

abbrev pub empty_event : Gateway → GatewayEvent
empty_event gw = record {
  join = none;
  uplink = none;
  online_offline = none;
  downlink_ack = none;
  received_from = gw.network_id;
}

module _ (ext : Externals) (answers : Answers) (now : ℕ) where
  -- `recordUnknownGateway.Record`, whose error is ignored
  abbrev pub unknown : ℕ → Exchange → Exchange
  unknown local_id s = record s { recorder = (record_gateway answers now local_id s.recorder).1 }

  -- `airtime, _ := airtime.UplinkAirtime(frame)`, in nanoseconds: 0 on an error
  abbrev pub airtime_or_zero : UplinkFrame → ℕ
  airtime_or_zero frame = elim (uplink_airtime ext.calculate frame) [
    | none ↦ 0
    | some airtime ↦ airtime
  ]

  -- The frame as it goes to the routers.
  unfoldable pub network_frame : Gateway → UplinkFrame → UplinkFrame
  network_frame gw frame =
      let frame = local_uplink_frame_to_network ext gw frame in
      set_chaindata_in_frame_metadata ext frame gw (airtime_or_zero frame / 1000000)

  -- `uint32(airtime.Milliseconds())`
  unfoldable pub uplink_event : Gateway → UplinkFrame → GatewayToRouterEvent
  uplink_event gw frame = event_of gw (
      uplink_frame_event (network_frame gw frame) (record {
        owner = owner_bytes gw;
        airtime = airtime_or_zero (local_uplink_frame_to_network ext gw frame) / 1000000 % 2 ^ 32;
      }))

  abbrev pub data_up : Gateway → UplinkFrame → MacPayload → Exchange → Exchange × List Effect
  data_up gw frame payload s = elim payload [
    | mac_payload mac ↦
        if is_maybe_mapper_packet (network_frame gw frame) mac
        then (s, to_mapper (network_frame gw frame) mac ∷ [])
        else (
          try_broadcast
              (record (empty_event gw) { uplink = some (mac.dev_addr, uplink_event gw frame) }) s,
          [],
        )
    | _ ↦ (s, [])
  ]

  abbrev pub join_up : Gateway → UplinkFrame → MacPayload → Exchange → Exchange × List Effect
  join_up gw frame payload s = elim payload [
    | join_request_payload dev_eui ↦ (
      try_broadcast (record (empty_event gw) { join = some (dev_eui, uplink_event gw frame) }) s,
      [],
    )
    | _ ↦ (s, [])
  ]

  unfoldable pub dispatch : Gateway → UplinkFrame → Option Phy → Exchange → Exchange × List Effect
  dispatch gw frame none s = (s, [])
  dispatch gw frame (some phy) s = elim phy.mtype [
    | unconfirmed_data_up ↦ data_up gw frame phy.payload s
    | confirmed_data_up ↦ data_up gw frame phy.payload s
    | join_request ↦ join_up gw frame phy.payload s
    | rejoin_request ↦ join_up gw frame phy.payload s
    | _ ↦ (s, [])
  ]

  unfoldable pub uplink_frame_callback : UplinkFrame → Exchange → Exchange × List Effect
  uplink_frame_callback frame s = elim (ext.store.parse_eui frame.gateway_id) [
    | none ↦ (s, [])
    | some local_id ↦ elim (by_local_id_string ext.store frame.gateway_id s.gateways) [
      | err e ↦ (unknown local_id s, [])
      | ok gw ↦ dispatch gw frame (ext.unmarshal_phy frame.phy_payload) s
    ]
  ]

  -- `subscribeEvent`, on the bytes of the gateway's local ID
  unfoldable pub subscribe_event : List ℕ → Bool → Exchange → Exchange
  subscribe_event id subscribe s = elim (bytes_to_gateway_id id) [
    | none ↦ s
    | some local_id ↦ elim (by_local_id ext.store local_id s.gateways) [
      | err e ↦ unknown local_id s
      | ok gw ↦
          try_broadcast
            (record (empty_event gw) {
              online_offline = some (event_of gw (status_event subscribe));
            })
            s
    ]
  ]

  unfoldable pub downlink_tx_ack : DownlinkTxAck → Exchange → Exchange
  downlink_tx_ack ack s = elim (ext.store.parse_eui ack.gateway_id) [
    | none ↦ s
    | some local_id ↦ elim (by_local_id ext.store local_id s.gateways) [
      | err e ↦ unknown local_id s
      | ok gw ↦
          let ack = local_downlink_tx_ack_to_network ext gw ack in
          try_broadcast
            (record (empty_event gw) {
              downlink_ack = some (
                ack.downlink_id,
                event_of gw
                    (downlink_tx_ack_event ack (record { owner = owner_bytes gw; airtime = 0 })),
              );
            })
            s
    ]
  ]

  -- An id that does not parse is logged, and the zero id is looked up.
  abbrev pub id_or_zero : Option ℕ → ℕ
  id_or_zero none = 0
  id_or_zero (some id) = id

  -- `handleDownlinkFrame`: without a gateway the first item is logged, which panics where there is
  -- none: that is the outer `none`.
  unfoldable pub handle_downlink_frame : DownlinkFrame → Exchange → Option (List Effect)
  handle_downlink_frame frame s =
      elim (by_network_id ext.store (id_or_zero (ext.store.parse_eui frame.gateway_id))
        s.gateways) [
          | err e ↦ elim frame.items [ [] ↦ none | item ∷ items ↦ some [] ]
          | ok gw ↦ some (to_backend (network_downlink_frame_to_local ext gw frame) ∷ [])
        ]

  -- A message of a router on `networkEvents`, in the loop of `Run`
  unfoldable pub on_network_event : RouterToGatewayEvent → Exchange → Option (List Effect)
  on_network_event (downlink_frame_event frame) s = handle_downlink_frame frame s
  on_network_event (airtime_payment_event payment) s = some (add_payment payment ∷ [])
  on_network_event unset_event s = some []
