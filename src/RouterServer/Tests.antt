-- ===== src/RouterServer/Tests.antt =====
-- A router at work: two forwarders with a gateway each, an uplink and the downlink that answers it.
use packet_handling.Base.{◌≡◌, ◌≢◌, ◌↔◌, ◌≤◌, ◌+◌, ◌*◌, refl, none, some, [], ◌∷◌}
use packet_handling.Base.Time.{minute}
use packet_handling.GoMap.{lookup}
use packet_handling.Wire.{downlink_frame_event}
use packet_handling.GatewayIds.{network_id_of_id}
use packet_handling.RouterServer.{to_forwarder, downlink_frame, cleanup_time_out_gateways}
use packet_handling.RouterServer.Loop.{forwarder_event, events_step}
use packet_handling.RouterServer.Evict.{disconnect_iff, cleanup_iff}
use packet_handling.RouterServer.Uplinks.{uplink_message, downlink_follows_uplink}
use packet_handling.Samples.{frame, receipt, gateway_key, answer, server_ext, server, own, other}

disconnect_iff_example :
    (lookup 8 (events_step server_ext 1 100 0 (forwarder_event none) server).server.gateways
      ≡ some other)
    ↔ ((lookup 8 server.gateways ≡ some other) × (other.forwarder_id ≢ 1))
disconnect_iff_example =
    disconnect_iff server_ext 1 100 0 server 8 other (λ id. refl) (refl, (refl, tt))

cleanup_iff_example :
    (lookup 7 (cleanup_time_out_gateways server_ext minute server).0.gateways ≡ some own)
    ↔ ((lookup 7 server.gateways ≡ some own) × (minute ≤ own.last_seen + 5 * minute))
cleanup_iff_example =
    cleanup_iff server_ext 1 100 minute server 7 own (λ id. refl) (refl, (refl, tt))

downlink_follows_uplink_example :
    downlink_frame server_ext answer
      (events_step server_ext 1 100 0
        (forwarder_event (some (uplink_message gateway_key 5 frame receipt)))
        server).server
    ≡ to_forwarder 100 (downlink_frame_event answer) ∷ []
unfolding network_id_of_id
downlink_follows_uplink_example =
    downlink_follows_uplink server_ext 1 100 0 gateway_key 5 frame receipt answer server
      (refl, (refl, tt)) refl refl
