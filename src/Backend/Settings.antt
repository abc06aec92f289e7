-- ===== src/Backend/Settings.antt =====
-- What the basic station backend takes from the configuration (buildBasicStationBackend of
-- forwarder/backend.go).
use packet_handling.Base.{
  String, bind_some, subst, ap, sym, ◌≡◌, refl, ◌≢◌, ◌∙◌, inl, inr, some, [], ◌∷◌, Option-cases,
  Bool-cases, arith,
}
use packet_handling.Backend.{
  Band, BackendConfig, StationConfig, Station, Externals, Concentrator, station_backend,
  load_region, station_of, build_station, build_other, build_udp, build_backend,
}
use mathlib.Core.Option.{some-injective}
use text.Mathlib.Text.{◌==◌ as str_eq}

-- What a station has of a configuration.
abbrev pub Settings : StationConfig → Station → Type 0
Settings cfg s =
    (cfg.tls_cert ≡ some s.tls_cert)
    × (cfg.tls_key ≡ some s.tls_key)
    × (cfg.ca_cert ≡ some s.ca_cert)
    × (cfg.stats_interval ≡ some s.stats_interval)
    × (cfg.ping_interval ≡ some s.ping_interval)
    × (cfg.timesync_interval ≡ some s.timesync_interval)
    × (cfg.read_timeout ≡ some s.read_timeout)
    × (cfg.write_timeout ≡ some s.write_timeout)

station_of-Settings :
    (name : String) (cfg : StationConfig) (s : Station)
    → station_of name cfg ≡ some s
    → Settings cfg s × (s.region ≡ name) × (s.bind ≡ "")
unfolding station_of
station_of-Settings name cfg s h =
    let (ca, e1, h1) = bind_some cfg.ca_cert _ s h in
    let (cert, e2, h2) = bind_some cfg.tls_cert _ s h1 in
    let (key, e3, h3) = bind_some cfg.tls_key _ s h2 in
    let (stats, e4, h4) = bind_some cfg.stats_interval _ s h3 in
    let (ping, e5, h5) = bind_some cfg.ping_interval _ s h4 in
    let (timesync, e6, h6) = bind_some cfg.timesync_interval _ s h5 in
    let (read, e7, h7) = bind_some cfg.read_timeout _ s h6 in
    let (write, e8, h8) = bind_some cfg.write_timeout _ s h7 in
    let same = some-injective _ _ h8 in
    (
      (
        e2 ∙ ap (λ (x : Station). some x.tls_cert) same,
        e3 ∙ ap (λ (x : Station). some x.tls_key) same,
        e1 ∙ ap (λ (x : Station). some x.ca_cert) same,
        e4 ∙ ap (λ (x : Station). some x.stats_interval) same,
        e5 ∙ ap (λ (x : Station). some x.ping_interval) same,
        e6 ∙ ap (λ (x : Station). some x.timesync_interval) same,
        e7 ∙ ap (λ (x : Station). some x.read_timeout) same,
        e8 ∙ ap (λ (x : Station). some x.write_timeout) same,
      ),
      ap (λ (x : Station). x.region) (sym same),
      ap (λ (x : Station). x.bind) (sym same),
    )

station_backend-injective : (s t : Station) → station_backend s ≡ station_backend t → s ≡ t
station_backend-injective s t h = ap (λ x. elim x [ station_backend y ↦ y | _ ↦ s ]) h

module _ {Rate : Type 0} (ext : Externals Rate) where
  build_udp-other : (cfg : BackendConfig) (s : Station) → build_other ext cfg ≢ station_backend s
  unfolding build_udp
  build_udp-other cfg s h = elim (Option-cases cfg.semtech_udp) [
    | inl n ↦ let h' = rw (n) at h in cc h'
    | inr (udp, n) ↦ let h' = rw (n, build_udp) at h in ground (arith, h')
  ]

  -- The station has the settings of the configuration and the frequencies of its band.
  abbrev pub Configures : StationConfig → Station → Type 0
  Configures cfg s =
      (b : Band Rate) × (c : Concentrator) × (ext.band_of cfg.region ≡ some b)
      × (load_region b ≡ some (s.frequencies, c))
      × (s.concentrators ≡ c ∷ [])
      × Settings cfg s
      × (s.region ≡ b.name)
      × (s.bind ≡ "")

  build_station-Settings :
      (cfg : StationConfig) (s : Station)
      → build_station ext cfg ≡ station_backend s
      → Configures cfg s
  unfolding build_station
  build_station-Settings cfg s h = elim (Option-cases (ext.band_of cfg.region)) [
    | inl n ↦ let h' = rw (n, build_station) at h in cc h'
    | inr (b, n) ↦ elim (Option-cases (station_of b.name cfg)) [
      | inl m ↦ let h' = rw (n, m, build_station) at h in cc h'
      | inr (t, m) ↦ elim (Option-cases (load_region b)) [
        | inl l ↦ let h' = rw (n, m, l, build_station) at h in cc h'
        | inr ((r, c), l) ↦
            let full : Station = record t { frequencies = r; concentrators = c ∷ [] } in
            let (settings, region, bind) = station_of-Settings b.name cfg t m in
            let h' = rw (n, m, l, build_station) at h in
            elim (Bool-cases (ext.new_station full)) [
              | inl k ↦
                  subst (Configures cfg) (station_backend-injective full s (rw k at h'))
                    (b, c, n, l, refl, settings, region, bind)
              | inr k ↦ let h'' = rw k at h' in cc h''
            ]
      ]
    ]
  ]

  -- Where a basic station backend is built, the configuration has a basic station with a region that
  -- has a band, and the station has its certificates, key and durations, the name and the frequencies
  -- of the band and one concentrator; its Bind is empty, whatever Bind the configuration has.
  pub build_backend_station :
      (cfg : BackendConfig) (s : Station)
      → build_backend ext cfg ≡ station_backend s
      → (st : StationConfig) × (cfg.basic_station ≡ some st) × Configures st s
  unfolding build_backend
  build_backend_station cfg s h = elim (Option-cases cfg.basic_station) [
    | inl n ↦ absurd (build_udp-other cfg s (rw (n, build_backend) at h))
    | inr (st, n) ↦ elim (Bool-cases (str_eq st.region "")) [
      | inl e ↦ absurd (build_udp-other cfg s (rw (n, e, build_backend) at h))
      | inr e ↦ (st, n, build_station-Settings st s (rw (n, e, build_backend) at h))
    ]
  ]
