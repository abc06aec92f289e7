-- ===== src/Backend/Frequencies.antt =====
-- The range of frequencies that a basic station is configured with (loadBasicStationRegionConfigUplink
-- and loadBasicStationRegionConfigDownlink of forwarder/backend.go).
use packet_handling.Base.{
  bind_some, subst, ap, ◌∙◌, ℕ, ◌^◌, ◌<◌, ◌≡◌, refl, inl, inr, true, some, [], arith, contains,
}
use packet_handling.Backend.{
  Band, Channel, Range, Concentrator, widen, load_uplinks, load_downlinks, no_range,
  no_concentrator, load_region,
}
use packet_handling.Backend.Widen.{Within, Ends, widen-Within, widen-keeps, widen-Ends}
use packet_handling.Backend.Loops.{
  uplinks-Within, uplinks-Ends, downlinks-keep, downlinks-Within, downlinks-Ends,
}

module _ {Rate : Type 0} (b : Band Rate) where
  -- The frequencies a gateway of the band uses: those of the enabled uplink channels, of the RX1
  -- channels for them, and of RX2.
  pub data Used : ℕ → Type 0 where
    uplink :
        (i : ℕ) (ch : Channel)
        → contains i b.enabled_uplinks ≡ true
        → b.uplink_channel i ≡ some ch
        → Used ch.frequency
    downlink :
        (i j : ℕ) (ch : Channel)
        → contains i b.enabled_uplinks ≡ true
        → b.rx1_channel i ≡ some j
        → b.downlink_channel j ≡ some ch
        → Used ch.frequency
    rx2 : Used b.rx2_frequency

  Ends-settled :
      (r : Range)
      → b.rx2_frequency < 2 ^ 32
      → Within b.rx2_frequency r
      → Ends Used r
      → Used r.low × Used r.high
  Ends-settled r w (l, h) (low, high) = (
    elim low [ inl e ↦ subst Used (omega arith) rx2 | inr u ↦ u ],
    elim high [ inl e ↦ subst Used (omega arith) rx2 | inr u ↦ u ],
  )

  region-steps :
      (r : Range) (c : Concentrator)
      → load_region b ≡ some (r, c)
      → (up down : Range) × (load_uplinks b b.enabled_uplinks no_range no_concentrator
          ≡ some (up, c))
        × (load_downlinks b b.enabled_uplinks [] up ≡ some down)
        × (widen b.rx2_frequency down ≡ r)
  unfolding load_region
  region-steps r c h =
      let ((up, d), n, h1) =
        bind_some (load_uplinks b b.enabled_uplinks no_range no_concentrator) _ (r, c) h in
      let (down, m, h2) = bind_some (load_downlinks b b.enabled_uplinks [] up) _ (r, c) h1 in
      (up, down, n ∙ ap (λ x. some (up, x)) (cc h2), m, cc h2)

  -- Where the configuration of a band succeeds, every frequency that the band uses lies between
  -- FrequencyMin and FrequencyMax, and both are frequencies that it uses; RX2 is of 32 bits.
  pub load_region_lem :
      (r : Range) (c : Concentrator)
      → b.rx2_frequency < 2 ^ 32
      → load_region b ≡ some (r, c)
      → ((f : ℕ) → Used f → Within f r) × Used r.low × Used r.high
  load_region_lem r c w h =
      let (up, down, u, d, e) = region-steps r c h in
      let rx2_in : Within b.rx2_frequency r =
        subst (Within b.rx2_frequency) e (widen-Within b.rx2_frequency down) in
      let kept : (f : ℕ) → Within f down → Within f r =
        λ f q. subst (Within f) e (widen-keeps b.rx2_frequency f down q) in
      let ends : Ends Used r = subst (Ends Used) e (
        widen-Ends Used b.rx2_frequency down rx2 (
          downlinks-Ends b Used b.enabled_uplinks [] up down downlink d (
            uplinks-Ends b Used b.enabled_uplinks no_range no_concentrator up c uplink u
              (inl refl, inl refl)))) in
      let (lower, upper) = Ends-settled r w rx2_in ends in
      (
        λ f used. elim used as (λ k _. Within k r) [
          | uplink i ch m n ↦ kept ch.frequency (
              downlinks-keep b b.enabled_uplinks [] up down ch.frequency d
                (uplinks-Within b b.enabled_uplinks no_range no_concentrator up c i ch u m n))
          | downlink i j ch m n k ↦ kept ch.frequency (
              downlinks-Within b b.enabled_uplinks [] up down i j ch d
                (λ k hd q. absurd (ground (arith, q))) m n k)
          | rx2 ↦ rx2_in
        ],
        lower,
        upper,
      )
