-- ===== src/Exchange/Tests.antt =====
-- The exchange at work: an uplink of the one gateway of its store, and the answer to it.
use packet_handling.Base.{◌≡◌, refl, true, none, some, [], ◌∷◌}
use packet_handling.Wire.{downlink_frame_event}
use packet_handling.GatewayIds.{network_id_of_id}
use packet_handling.GatewayStore.{Gateway, new_gateway}
use packet_handling.UnknownGateways.{Answers, entire, no_recorder}
use packet_handling.RouterServer
use packet_handling.RouterServer.{to_forwarder}
use packet_handling.RouterServer.Loop.{forwarder_event, events_step}
use packet_handling.RouterServer.Uplinks.{published}
use packet_handling.Exchange.{Externals, Exchange, to_backend}
use packet_handling.Exchange.Handlers.{uplink_event, on_network_event}
use packet_handling.Exchange.RoundTrip.{answer_comes_back}
use packet_handling.Samples.{frame, answer, store_ext, server_ext, exchange_ext, server}

abbrev ext : Externals
ext = exchange_ext

abbrev willing : Answers
willing = record { opens = true; writes = entire }

abbrev gateway : Gateway
unfolding new_gateway
gateway = new_gateway store_ext 3 7

abbrev exchange : Exchange
unfolding gateway
exchange = record {
  gateways = record {
    by_local_id = (3, gateway) ∷ [];
    by_net_id = (7, gateway) ∷ [];
    by_thingsix_id = [];
    default_plan = none;
  };
  recorder = no_recorder;
  waiting = [];
}

answer_comes_back_example :
    (published
        (events_step server_ext 1 100 0
          (forwarder_event (some (uplink_event ext willing 0 gateway frame)))
          server).effects
      ≡ 1)
    × (RouterServer.downlink_frame server_ext answer
          (events_step server_ext 1 100 0
            (forwarder_event (some (uplink_event ext willing 0 gateway frame)))
            server).server
        ≡ to_forwarder 100 (downlink_frame_event answer) ∷ [])
    × (on_network_event ext willing 0 (downlink_frame_event answer) exchange
        ≡ some (to_backend (record answer { gateway_id = ext.eui_string gateway.local_id }) ∷ []))
unfolding gateway exchange network_id_of_id new_gateway
answer_comes_back_example =
    answer_comes_back ext server_ext willing 1 100 0 gateway frame answer exchange server
      (refl, (refl, tt)) refl refl refl refl refl refl refl
