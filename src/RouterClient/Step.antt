-- ===== src/RouterClient/Step.antt =====
-- One step of the select loop of `run` (forwarder/router_client.go).
use text.Mathlib.Text.{◌==◌ as str_eq}
use packet_handling.Base.{
  ℕ, ◌+◌, ◌*◌, String, Bool, true, false, not, Option, none, some, List, [], ◌∷◌, ◌++◌, ltb, ◌==◌,
  if◌then◌else◌,
}
use packet_handling.Base.Time.{millisecond, second, minute}
use packet_handling.GoMap.{Map, lookup, insert, delete}
use packet_handling.DevAddr.{DevAddr}
use packet_handling.Wire.{
  GatewayEvent, GatewayToRouterEvent, RouterToGatewayEvent, downlink_frame_event,
  airtime_payment_event, unset_event, airtime_of, online_of,
}
use packet_handling.Route.{
  Externals, Router, RouterDetails, interested_in, accepts_join, allow_airtime,
}
use packet_handling.RouterClient.Defs.{
  Client, Input, ack_tick, details, from_gateway, from_router, routes, renew_tick, Effect, send,
  send_ack, network_event, add_payment, update_join_filter, Outcome, go_on, return_nil, send_failed,
  connection_lost, endpoint_changed, panics, Result, downlink_key,
}

-- Acks that were asked for more than 30 seconds ago are dropped.
unfoldable pub drop_expired : ℕ → Map ℕ → Map ℕ
drop_expired now [] = []
drop_expired now ((id, created) ∷ m) =
    let rest = drop_expired now m in
    if ltb (created + 30 * second) now then rest else (id, created) ∷ rest

-- The last event of a gateway is at most four minutes old.
abbrev pub recent : Option ℕ → ℕ → Bool
recent none now = false
recent (some last) now = not (ltb (last + 4 * minute) now)

module _ {Bitmap : Type 0} where
  abbrev pub done : Client Bitmap → List Effect → Outcome → Result Bitmap
  done c effects outcome = record { client = c; effects = effects; outcome = outcome }

  -- The five fields that every update copies; the plan is left alone.
  abbrev pub apply_details : Router Bitmap → String → ℕ → ℕ → ℕ → ℕ → Router Bitmap
  apply_details r endpoint net_id prefix mask owner = record r {
    endpoint = endpoint;
    net_id = net_id;
    prefix = prefix;
    mask = mask;
    owner = owner;
  }

  unfoldable pub on_details : Client Bitmap → RouterDetails → Result Bitmap
  on_details c d =
      let r = apply_details c.router d.endpoint d.net_id d.prefix d.mask d.owner in
      done (record c { router = record r { frequency_plan = d.frequency_plan } }) []
        (if not (str_eq c.router.endpoint d.endpoint) then return_nil else go_on)

  -- A `Send` of an uplink or a join, and the note of the time.
  unfoldable pub forward : Client Bitmap → ℕ → GatewayToRouterEvent → Bool → ℕ → Result Bitmap
  forward c gateway event sent now =
      if sent
      then done (record c { last_event = insert gateway now c.last_event }) (send event ∷ []) go_on
      else done c [] send_failed

  -- An ack goes to the router that asked for it, and is asked for once.
  unfoldable pub on_ack :
      (List ℕ → ℕ) → Client Bitmap → ℕ → GatewayToRouterEvent → Bool → Result Bitmap
  on_ack sha256 c downlink_id event sent =
      let key = downlink_key sha256 c.router.thingsix_id downlink_id in
      elim (lookup key c.pending) [
        | none ↦ done c [] go_on
        | some created ↦
            let c' = record c { pending = delete key c.pending } in
            if sent then done c' (send_ack key event ∷ []) go_on else done c' [] send_failed
      ]

  unfoldable pub on_status : Client Bitmap → ℕ → GatewayToRouterEvent → Bool → ℕ → Result Bitmap
  on_status c gateway event sent now =
      if online_of event
      then if recent (lookup gateway c.last_event) now
        then done c [] go_on
        else if sent
        then done (record c { last_event = insert gateway now c.last_event }) (send event ∷ [])
            go_on
        else done c [] send_failed
      else if sent
      then done (record c { last_event = delete gateway c.last_event }) (send event ∷ []) go_on
      else done c [] send_failed

  unfoldable pub on_router_event :
      (List ℕ → ℕ) → Client Bitmap → RouterToGatewayEvent → ℕ → Result Bitmap
  on_router_event sha256 c (airtime_payment_event p) now =
      if c.router.has_accounting
      then done c
          (add_payment p ∷ network_event c.router.thingsix_id (airtime_payment_event p) ∷ []) go_on
      else done c [] panics
  on_router_event sha256 c (downlink_frame_event f) now =
      let key = downlink_key sha256 c.router.thingsix_id f.downlink_id in
      done (record c { pending = insert key now c.pending })
        (network_event c.router.thingsix_id (downlink_frame_event f) ∷ []) go_on
  on_router_event sha256 c unset_event now =
      done c (network_event c.router.thingsix_id unset_event ∷ []) go_on

  -- The loop over the latest set of routes, with `found`.
  unfoldable pub scan_routes : Client Bitmap → List (Option (Router Bitmap)) → Bool → Result Bitmap
  scan_routes c [] found = done c [] (if found then go_on else return_nil)
  scan_routes c (none ∷ rs) found = done c [] panics
  scan_routes c (some r ∷ rs) found =
      let updated = record c {
        router = apply_details c.router r.endpoint r.net_id r.prefix r.mask r.owner;
      } in
      let next = scan_routes updated rs true in
      let skipped = scan_routes c rs found in
      if c.router.thingsix_id == r.thingsix_id
      then if not (str_eq c.router.endpoint r.endpoint)
        then done updated [] endpoint_changed
        else next
      else skipped

  unfoldable pub on_routes : Client Bitmap → Option (List (Option (Router Bitmap))) → Result Bitmap
  unfolding scan_routes
  on_routes c none = done c [] go_on
  on_routes c (some rs) = if c.router.is_default then done c [] go_on else scan_routes c rs false

module _ {Bitmap : Type 0} (ext : Externals Bitmap) (sha256 : List ℕ → ℕ) where
  -- The airtime of an event in nanoseconds.
  abbrev pub allowed : Client Bitmap → GatewayToRouterEvent → Bool
  allowed c event = allow_airtime ext c.router c.router.owner (airtime_of event * millisecond)

  unfoldable pub on_uplink :
      Client Bitmap → ℕ → DevAddr → GatewayToRouterEvent → Bool → ℕ → Result Bitmap
  on_uplink c gateway device event sent now =
      if interested_in ext c.router device
      then if allowed c event then forward c gateway event sent now else done c [] go_on
      else done c [] go_on

  unfoldable pub on_join : Client Bitmap → ℕ → ℕ → GatewayToRouterEvent → Bool → ℕ → Result Bitmap
  on_join c gateway dev_eui event sent now =
      if accepts_join ext c.router dev_eui
      then if allowed c event then forward c gateway event sent now else done c [] go_on
      else done c [] go_on

  -- `IsUplink`, `IsJoin`, `IsDownlinkAck` and `IsOnlineOfflineEvent`, in this order.
  unfoldable pub on_parts :
      Client Bitmap
      → Option (DevAddr × GatewayToRouterEvent)
      → Option (ℕ × GatewayToRouterEvent)
      → Option (ℕ × GatewayToRouterEvent)
      → Option GatewayToRouterEvent
      → ℕ
      → Bool
      → ℕ
      → Result Bitmap
  on_parts c (some (device, event)) join ack status gateway sent now =
      on_uplink c gateway device event sent now
  on_parts c none (some (dev_eui, event)) ack status gateway sent now =
      on_join c gateway dev_eui event sent now
  on_parts c none none (some (id, event)) status gateway sent now = on_ack sha256 c id event sent
  on_parts c none none none (some event) gateway sent now = on_status c gateway event sent now
  on_parts c none none none none gateway sent now = done c [] go_on

  unfoldable pub on_gateway_event : Client Bitmap → GatewayEvent → Bool → ℕ → Result Bitmap
  unfolding on_parts
  on_gateway_event c ev sent now =
      on_parts c ev.uplink ev.join ev.downlink_ack ev.online_offline ev.received_from sent now

  -- One round of the select loop.
  unfoldable pub step : Client Bitmap → Input Bitmap → Result Bitmap
  step c (ack_tick now) = done (record c { pending = drop_expired now c.pending }) [] go_on
  step c (details d) = on_details c d
  step c (from_gateway none sent now) = done c [] go_on
  step c (from_gateway (some ev) sent now) = on_gateway_event c ev sent now
  step c (from_router none now) = done c [] connection_lost
  step c (from_router (some ev) now) = on_router_event sha256 c ev now
  step c (routes latest) = on_routes c latest
  step c renew_tick = done c (update_join_filter ∷ []) go_on

abbrev pub is_go_on : Outcome → Bool
is_go_on go_on = true
is_go_on _ = false

module _ {Bitmap : Type 0} (ext : Externals Bitmap) (sha256 : List ℕ → ℕ) where
  -- The loop, over the events in the order in which select takes them: the client, what was sent,
  -- and how the loop was left (`go_on` where it waits for the next event).
  unfoldable pub run : Client Bitmap → List (Input Bitmap) → Client Bitmap × List Effect × Outcome
  run c [] = (c, [], go_on)
  run c (i ∷ is) =
      let r = step ext sha256 c i in
      let rest = run r.client is in
      if is_go_on r.outcome
      then (rest.0, r.effects ++ rest.1, rest.2)
      else (r.client, r.effects, r.outcome)
