-- ===== src/RouterClient/Forwarding.antt =====
-- Which uplinks and joins a client passes on to its router.
use packet_handling.Base.{
  ℕ, ◌-◌, ◌*◌, ◌%◌, ◌^◌, ◌<◌, ◌≡◌, ◌↔◌, ◌⊎◌, Bool, true, some, List, [], ◌∷◌, arith, refl, inl, inr,
  Bool-cases,
}
use packet_handling.DevAddr.{DevAddr, IsAddr}
use packet_handling.Wire.{GatewayToRouterEvent, airtime_of}
use packet_handling.Route.{Externals, interested_in, allow_airtime}
use packet_handling.Route.Interest.{Subscribed, interested_in_iff}
use packet_handling.RouterClient.Defs.{Client, from_gateway, send}
use packet_handling.RouterClient.Step.{allowed, forward, on_uplink, on_gateway_event, step}
use packet_handling.RouterClient.Online.{uplink_from}

module _ {Bitmap : Type 0} (ext : Externals Bitmap) (sha256 : List ℕ → ℕ) where
  sends_uplink :
      (c : Client Bitmap) (g : ℕ) (a : DevAddr) (event : GatewayToRouterEvent) (sent : Bool)
      (now : ℕ)
      → ((on_uplink ext sha256 c g a event sent now).effects ≡ send event ∷ []) ↔ (
          (interested_in ext c.router a ≡ true)
          × (allowed ext sha256 c event ≡ true)
          × (sent ≡ true))
  unfolding on_uplink forward
  sends_uplink c g a event sent now = (λ e. ground arith, λ e. ground arith)

  -- A default router is not accounted; another router's owner is asked with nanoseconds.
  allowed_iff :
      (c : Client Bitmap) (event : GatewayToRouterEvent)
      → (allowed ext sha256 c event ≡ true) ↔ (
          (c.router.is_default ≡ true)
          ⊎ (ext.allow c.router.owner (airtime_of event * 1000000) ≡ true))
  unfolding allow_airtime
  allowed_iff c event = elim (Bool-cases c.router.is_default) [
    | inl e ↦ (λ h. inl e, λ h. rw (e, allow_airtime) refl)
    | inr e ↦ (
      λ h. inr (rw (e, allow_airtime) at h),
      λ h. elim h [ inl d ↦ absurd (cc (d, e)) | inr a ↦ rw (e, allow_airtime) a ],
    )
  ]

  -- An uplink goes to the router exactly if the router is a default one or subscribed to the
  -- device's address, it is a default one or the accounting allows its owner the airtime, which the
  -- event has in milliseconds and the accounting takes in nanoseconds, and the stream takes the message;
  -- the address has four bytes, and the registered prefix 32 bits with none set below its mask.
  pub uplink_sent_iff :
      (c : Client Bitmap) (g : ℕ) (a : DevAddr) (event : GatewayToRouterEvent) (sent : Bool)
      (now : ℕ)
      → IsAddr a
      → c.router.prefix < 2 ^ 32
      → c.router.prefix % 2 ^ (32 - c.router.mask) ≡ 0
      → ((step ext sha256 c (from_gateway (some (uplink_from g a event)) sent now)).effects
          ≡ send event ∷ [])
        ↔ (((c.router.is_default ≡ true) ⊎ Subscribed ext c.router a)
            × ((c.router.is_default ≡ true)
                ⊎ (ext.allow c.router.owner (airtime_of event * 1000000) ≡ true))
            × (sent ≡ true))
  unfolding step on_gateway_event
  uplink_sent_iff c g a event sent now v hp z =
      let i = interested_in_iff ext c.router a v hp z in
      let w = allowed_iff c event in
      let s = sends_uplink c g a event sent now in
      (λ e. let h = s.0 e in (i.0 h.0, w.0 h.1, h.2), λ h. s.1 (i.1 h.0, w.1 h.1, h.2))
