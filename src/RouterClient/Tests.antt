-- ===== src/RouterClient/Tests.antt =====
-- A router client at work: an uplink, online and offline events, acks, moves and waits.
use Prim.Native.Nat.{min}
use packet_handling.Base.{
  ℕ, ◌+◌, ◌*◌, ◌^◌, ◌≤◌, ◌≡◌, ◌≢◌, ◌↔◌, ◌⊎◌, refl, true, false, none, some, List, [], ◌∷◌, ◌++◌,
  arith, length, any, map, ◌==◌,
}
use packet_handling.Base.Time.{second, minute}
use packet_handling.DevAddr.{dev_addr_has_prefix}
use packet_handling.Route.{Router, interested_in, allow_airtime}
use packet_handling.Route.Interest.{Subscribed}
use packet_handling.RouterClient.Defs.{
  Input, from_gateway, from_router, routes, send, downlink_key, return_nil, panics,
}
use packet_handling.RouterClient.Step.{
  on_router_event, on_gateway_event, on_uplink, forward, step, run,
}
use packet_handling.RouterClient.AckRuns.{acks_sent, requests, weight, acks-le-requests}
use packet_handling.RouterClient.Forwarding.{uplink_sent_iff}
use packet_handling.RouterClient.Online.{uplink_from}
use packet_handling.RouterClient.Endpoint.{leaves_iff_gone}
use packet_handling.RouterClient.Backoff.{waited, waited_streak}
use packet_handling.Wire.{airtime_of, GatewayEvent, airtime_payment_event, downlink_frame_event}
use packet_handling.Samples.{
  device, device-IsAddr, hash, route_ext, router, client, uplink_event, answer,
}

uplink_sent_iff_example :
    ((step route_ext hash client
        (from_gateway (some (uplink_from 7 device uplink_event)) true 0)).effects
      ≡ send uplink_event ∷ [])
    ↔ (((client.router.is_default ≡ true) ⊎ Subscribed route_ext client.router device)
        × ((client.router.is_default ≡ true)
            ⊎ (route_ext.allow client.router.owner (airtime_of uplink_event * 1000000) ≡ true))
        × (true ≡ true))
uplink_sent_iff_example =
    uplink_sent_iff route_ext hash client 7 device uplink_event true 0 device-IsAddr (omega arith)
      refl

uplink_sent :
    (step route_ext hash client
      (from_gateway (some (uplink_from 7 device uplink_event)) true 0)).effects
    ≡ send uplink_event ∷ []
unfolding step on_gateway_event on_uplink forward interested_in dev_addr_has_prefix allow_airtime
uplink_sent = refl

uplink_goes :
    (step route_ext hash client
      (from_gateway (some (uplink_from 7 device uplink_event)) true 0)).effects
    ≢ []
uplink_goes e = cc (uplink_sent, e)

abbrev moved : Router (List ℕ)
moved = record router { endpoint = "b:1" }

waited_streak_example :
    waited ((1 ∷ 2 ∷ []) ++ (2 * minute) ∷ [])
    ≡ min (5 * second * 2 ^ length {A = ℕ} (1 ∷ 2 ∷ [])) (5 * minute)
waited_streak_example =
    waited_streak (1 ∷ 2 ∷ []) (2 * minute) [] (omega arith, (omega arith, tt)) (omega arith)

leaves_iff_gone_example :
    ((step route_ext hash client (routes (some (map some (moved ∷ []))))).outcome ≡ return_nil)
    ↔ (any (λ r. client.router.thingsix_id == r.thingsix_id) (moved ∷ []) ≡ false)
leaves_iff_gone_example = leaves_iff_gone route_ext hash client (moved ∷ []) refl

-- A default router of the configuration sends an airtime payment.
payment_test :
    (step route_ext hash
      (record client { router = record router { is_default = true; has_accounting = false } })
      (from_router (some (airtime_payment_event (record { owner = 5; airtime = 1 }))) 0)).outcome
    ≡ panics
unfolding step on_router_event
payment_test = refl

-- A downlink, and the ack for it twice.
abbrev ack : GatewayEvent
ack = record {
  join = none;
  uplink = none;
  online_offline = none;
  downlink_ack = some (4, uplink_event);
  received_from = 7;
}

abbrev inputs : List (Input (List ℕ))
inputs =
    from_router (some (downlink_frame_event answer)) 0
    ∷ from_gateway (some ack) true 1
    ∷ from_gateway (some ack) true 2
    ∷ []

acks-le-requests_example :
    acks_sent (downlink_key hash 9 4) (run route_ext hash client inputs).1
    ≤ requests hash (downlink_key hash 9 4) 9 inputs + weight (downlink_key hash 9 4) []
acks-le-requests_example = acks-le-requests route_ext hash (downlink_key hash 9 4) client inputs
