-- ===== src/RouterClient/AckRuns.antt =====
-- Over a whole run of a router client: acks sent against downlinks asked for.
use packet_handling.Base.{
  ℕ, ◌+◌, ◌≤◌, ◌≡◌, refl, Bool, true, false, Option, none, some, List, [], ◌∷◌, ◌++◌, arith, ◌==◌,
  if◌then◌else◌,
}
use packet_handling.GoMap.{Map, has}
use packet_handling.GoMap.Laws.{lookup-insert, lookup-delete}
use packet_handling.DevAddr.{DevAddr}
use packet_handling.Wire.{
  GatewayToRouterEvent, RouterToGatewayEvent, downlink_frame_event, airtime_payment_event,
  unset_event,
}
use packet_handling.Route.{Externals, Router}
use packet_handling.RouterClient.Defs.{
  Client, Input, ack_tick, details, from_gateway, from_router, routes, renew_tick, Effect, send,
  send_ack, network_event, add_payment, update_join_filter, Result, downlink_key,
}
use packet_handling.RouterClient.Step.{
  drop_expired, apply_details, on_details, forward, on_ack, on_status, on_router_event, scan_routes,
  on_routes, on_uplink, on_join, on_parts, on_gateway_event, step, run,
}

-- The acks sent under a key.
abbrev pub acks_sent : ℕ → List Effect → ℕ
acks_sent k [] = 0
acks_sent k (send_ack j event ∷ es) = (if j == k then 1 else 0) + acks_sent k es
acks_sent k (_ ∷ es) = acks_sent k es

acks_sent-append :
    (k : ℕ) (xs ys : List Effect) → acks_sent k (xs ++ ys) ≡ acks_sent k xs + acks_sent k ys
acks_sent-append k [] ys = omega arith
acks_sent-append k (send_ack j event ∷ xs) ys = omega (arith, acks_sent-append k xs ys)
acks_sent-append k (send e ∷ xs) ys = acks_sent-append k xs ys
acks_sent-append k (network_event j e ∷ xs) ys = acks_sent-append k xs ys
acks_sent-append k (add_payment p ∷ xs) ys = acks_sent-append k xs ys
acks_sent-append k (update_join_filter ∷ xs) ys = acks_sent-append k xs ys

abbrev pub weight : ℕ → Map ℕ → ℕ
weight k m = if has k m then 1 else 0

has-drop_expired : (k now : ℕ) (m : Map ℕ) → has k (drop_expired now m) ≡ true → has k m ≡ true
unfolding drop_expired
has-drop_expired k now [] h = h
has-drop_expired k now ((j, c) ∷ m) h = ground (arith, has-drop_expired k now m)

weight-drop_expired : (k now : ℕ) (m : Map ℕ) → weight k (drop_expired now m) ≤ weight k m
weight-drop_expired k now m = ground (arith, has-drop_expired k now m)

module _ {Bitmap : Type 0} (sha256 : List ℕ → ℕ) (k : ℕ) where
  -- The downlinks that the router asked for under a key: by one input, and by a sequence of inputs.
  abbrev pub asked : ℕ → Input Bitmap → ℕ
  asked id (from_router (some (downlink_frame_event f)) now) =
      if downlink_key sha256 id f.downlink_id == k then 1 else 0
  asked id _ = 0

  abbrev pub requests : ℕ → List (Input Bitmap) → ℕ
  requests id [] = 0
  requests id (i ∷ is) = asked id i + requests id is

-- What a handler owes: no more acks under the key than it takes off the map or was asked for, and
-- the router stays the same one.
abbrev Paid : {Bitmap : Type 0} → ℕ → ℕ → Client Bitmap → Result Bitmap → Type 0
Paid k n c r =
    (acks_sent k r.effects + weight k r.client.pending ≤ n + weight k c.pending)
    × (r.client.router.thingsix_id ≡ c.router.thingsix_id)

module _ {Bitmap : Type 0} (ext : Externals Bitmap) (sha256 : List ℕ → ℕ) (k : ℕ) where
  on_ack-Paid :
      (c : Client Bitmap) (id : ℕ) (event : GatewayToRouterEvent) (sent : Bool)
      → Paid k 0 c (on_ack sha256 c id event sent)
  unfolding on_ack
  on_ack-Paid c id event sent =
      let key : ℕ = downlink_key sha256 c.router.thingsix_id id in
      ground (arith, lookup-delete key k c.pending)

  on_status-Paid :
      (c : Client Bitmap) (g : ℕ) (event : GatewayToRouterEvent) (sent : Bool) (now : ℕ)
      → Paid k 0 c (on_status c g event sent now)
  unfolding on_status
  on_status-Paid c g event sent now = ground arith

  on_uplink-Paid :
      (c : Client Bitmap) (g : ℕ) (d : DevAddr) (event : GatewayToRouterEvent) (sent : Bool)
      (now : ℕ)
      → Paid k 0 c (on_uplink ext sha256 c g d event sent now)
  unfolding on_uplink forward
  on_uplink-Paid c g d event sent now = ground arith

  on_join-Paid :
      (c : Client Bitmap) (g d : ℕ) (event : GatewayToRouterEvent) (sent : Bool) (now : ℕ)
      → Paid k 0 c (on_join ext sha256 c g d event sent now)
  unfolding on_join forward
  on_join-Paid c g d event sent now = ground arith

  on_parts-Paid :
      (c : Client Bitmap) (u : Option (DevAddr × GatewayToRouterEvent))
      (j a : Option (ℕ × GatewayToRouterEvent)) (s : Option GatewayToRouterEvent) (g : ℕ)
      (sent : Bool) (now : ℕ)
      → Paid k 0 c (on_parts ext sha256 c u j a s g sent now)
  unfolding on_parts
  on_parts-Paid c (some (d, event)) j a s g sent now = on_uplink-Paid c g d event sent now
  on_parts-Paid c none (some (d, event)) a s g sent now = on_join-Paid c g d event sent now
  on_parts-Paid c none none (some (id, event)) s g sent now = on_ack-Paid c id event sent
  on_parts-Paid c none none none (some event) g sent now = on_status-Paid c g event sent now
  on_parts-Paid c none none none none g sent now = (omega arith, refl)

  on_router_event-Paid :
      (c : Client Bitmap) (ev : RouterToGatewayEvent) (now : ℕ)
      → Paid k
          (asked {Bitmap = Bitmap} sha256 k c.router.thingsix_id (from_router (some ev) now))
          c
          (on_router_event sha256 c ev now)
  unfolding on_router_event
  on_router_event-Paid c (downlink_frame_event f) now =
      let key : ℕ = downlink_key sha256 c.router.thingsix_id f.downlink_id in
      ground (arith, lookup-insert key k now c.pending)
  on_router_event-Paid c (airtime_payment_event p) now = ground arith
  on_router_event-Paid c unset_event now = (omega arith, refl)

  scan_routes-Paid :
      (c : Client Bitmap) (rs : List (Option (Router Bitmap))) (found : Bool)
      → Paid k 0 c (scan_routes c rs found)
  unfolding scan_routes
  scan_routes-Paid c [] found = (omega arith, refl)
  scan_routes-Paid c (none ∷ rs) found = (omega arith, refl)
  scan_routes-Paid c (some r ∷ rs) found =
      let updated : Client Bitmap = record c {
        router = apply_details c.router r.endpoint r.net_id r.prefix r.mask r.owner;
      } in
      ground (arith, scan_routes-Paid updated rs true, scan_routes-Paid c rs found)

  on_routes-Paid :
      (c : Client Bitmap) (rs : Option (List (Option (Router Bitmap))))
      → Paid k 0 c (on_routes c rs)
  unfolding on_routes
  on_routes-Paid c none = (omega arith, refl)
  on_routes-Paid c (some rs) = ground (arith, scan_routes-Paid c rs false)

  step-Paid :
      (c : Client Bitmap) (i : Input Bitmap)
      → Paid k (asked sha256 k c.router.thingsix_id i) c (step ext sha256 c i)
  unfolding step
  step-Paid c (ack_tick now) = (omega (arith, weight-drop_expired k now c.pending), refl)
  step-Paid c (details d) = unfold on_details in (omega arith, refl)
  step-Paid c (from_gateway none sent now) = (omega arith, refl)
  step-Paid c (from_gateway (some ev) sent now) =
      unfold on_gateway_event in
      on_parts-Paid c ev.uplink ev.join ev.downlink_ack ev.online_offline ev.received_from sent now
  step-Paid c (from_router none now) = (omega arith, refl)
  step-Paid c (from_router (some ev) now) = on_router_event-Paid c ev now
  step-Paid c (routes latest) = on_routes-Paid c latest
  step-Paid c renew_tick = (omega arith, refl)

  -- However the events interleave, a client sends its router at most as many acks for a downlink as
  -- the router asked for in the run, plus the one that may have been pending before it.
  pub acks-le-requests :
      (c : Client Bitmap) (is : List (Input Bitmap))
      → acks_sent k (run ext sha256 c is).1
        ≤ requests sha256 k c.router.thingsix_id is + weight k c.pending
  unfolding run
  acks-le-requests c [] = omega arith
  acks-le-requests c (i ∷ is) =
      let r : Result Bitmap = step ext sha256 c i in
      ground (
        arith,
        step-Paid c i,
        acks-le-requests r.client is,
        acks_sent-append k r.effects (run ext sha256 r.client is).1,
      )
