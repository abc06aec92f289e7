-- ===== src/RouterServer/Gateways.antt =====
-- The map of online gateways and the downlinks that go by it.
use packet_handling.Base.{
  ℕ, ◌≡◌, refl, true, false, Option, none, some, [], ◌∷◌, arith, ltb, ◌==◌, ==_iff, length,
  Bool-cases, inl, inr,
}
use packet_handling.GoMap.{Map, lookup, Distinct}
use packet_handling.GoMap.Laws.{Distinct-insert, Distinct-delete}
use packet_handling.Wire.{
  GatewayToRouterBody, RouterToGatewayEvent, uplink_frame_event, downlink_tx_ack_event,
  status_event, other_event,
}
use packet_handling.GatewayIds.{gateway_public_key_to_id}
use packet_handling.RouterServer.{
  ManagedGateway, Server, Externals, to_forwarder, gateway_online, gateway_offline, of_forwarder,
  all_gateways_offline, handle_status, deliver,
}
use packet_handling.RouterServer.Evict.{Distinct-evict}
use packet_handling.RouterServer.Loop.{
  Input, forwarder_event, integration_event, handle_body, handle_known, handle_event, events_step,
}

deliver-absent :
    (ext : Externals) (id : ℕ) (event : RouterToGatewayEvent) (m : Map ManagedGateway)
    → lookup id m ≡ none
    → deliver ext id event m ≡ []
unfolding deliver
deliver-absent ext id event [] h = refl
deliver-absent ext id event ((j, g) ∷ m) h = ground (arith, deliver-absent ext id event m)

-- To one channel: that of the entry.
pub deliver-found :
    (ext : Externals) (id : ℕ) (event : RouterToGatewayEvent) (m : Map ManagedGateway)
    (g : ManagedGateway)
    → Distinct m
    → lookup id m ≡ some g
    → deliver ext id event m ≡ to_forwarder g.forwarder event ∷ []
unfolding deliver
deliver-found ext id event [] g d h = cc
deliver-found ext id event ((j, x) ∷ m) g d h = elim (Bool-cases (j == id)) [
  | inl e ↦
      let gone : lookup id m ≡ none = rw (← (==_iff j id).0 e) d.0 in
      ground (arith, deliver-absent ext id event m gone)
  | inr e ↦ ground (arith, deliver-found ext id event m g d.1)
]

module _ (ext : Externals) (forwarder_id channel now : ℕ) where
  handle_body-Distinct :
      (id : ℕ) (body : GatewayToRouterBody) (s : Server)
      → Distinct s.gateways
      → Distinct (handle_body ext forwarder_id channel now id body s).server.gateways
  unfolding handle_body handle_status gateway_online gateway_offline
  handle_body-Distinct id (uplink_frame_event f r) s d =
      elim (Bool-cases (ext.set_subscription true id)) [
        | inl e ↦ rw e (Distinct-insert id _ s.gateways d)
        | inr e ↦ rw e d
      ]
  handle_body-Distinct id (downlink_tx_ack_event a r) s d = d
  handle_body-Distinct id (status_event true) s d =
      elim (Bool-cases (ext.set_subscription true id)) [
        | inl e ↦ rw e (Distinct-insert id _ s.gateways d)
        | inr e ↦ rw e d
      ]
  handle_body-Distinct id (status_event false) s d =
      elim (Bool-cases (ext.set_subscription false id)) [
        | inl e ↦ rw e (Distinct-delete id s.gateways d)
        | inr e ↦ rw e d
      ]
  handle_body-Distinct id other_event s d = d

  -- Every event of a connection keeps one entry for each gateway in a map that has one.
  pub events_step-Distinct :
      (i : Input) (s : Server)
      → Distinct s.gateways
      → Distinct (events_step ext forwarder_id channel now i s).server.gateways
  unfolding events_step handle_event all_gateways_offline
  events_step-Distinct (forwarder_event none) s d =
      Distinct-evict ext (of_forwarder ext forwarder_id) s.gateways d
  events_step-Distinct (forwarder_event (some event)) s d =
      elim (Bool-cases (ltb (length event.public_key) 33)) [
        | inl e ↦ rw e d
        | inr e ↦ rw e (known (gateway_public_key_to_id ext.sha256 event.public_key))
      ]
    where
      known :
          (o : Option ℕ)
          → Distinct (handle_known ext forwarder_id channel now o event.body s).server.gateways
      known none = d
      known (some id) = handle_body-Distinct id event.body s d
  events_step-Distinct (integration_event none ok) s d =
      Distinct-evict ext (of_forwarder ext forwarder_id) s.gateways d
  events_step-Distinct (integration_event (some ev) true) s d = d
  events_step-Distinct (integration_event (some ev) false) s d = d
