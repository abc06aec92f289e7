-- ===== src/Backend.antt =====
-- The choice and the configuration of the backend that gateways connect to: forwarder/backend.go.
-- The band plan (frequency-plan, brocaar/lorawan) and the constructors of the ChirpStack backends are
-- parameters; the configurations handed to those constructors are spelled out. Durations are in
-- nanoseconds.
pub mod Widen
pub mod Loops
pub mod Frequencies
pub mod Settings
mod Tests
use packet_handling.Base.{
  ◌>>=◌, ℕ, zero, suc, ◌-◌, ◌^◌, String, Bool, true, false, not, ◌&&◌, Option, none, some, List, [],
  ◌∷◌, ◌++◌, ltb, if◌then◌else◌, contains,
}
use packet_handling.Base.Int.{ℤ}
use text.Mathlib.Text.{◌==◌ as str_eq}

-- `BasicStationBackendConfig`: `none` is a nil pointer.
pub record StationConfig : Type 0 where
  pub bind : Option String
  pub tls_cert : Option String
  pub tls_key : Option String
  pub ca_cert : Option String
  pub stats_interval : Option ℤ
  pub ping_interval : Option ℤ
  pub timesync_interval : Option ℤ
  pub read_timeout : Option ℤ
  pub write_timeout : Option ℤ
  pub region : String

-- `ForwarderBackendSemtechUDPConfig`
pub record UdpConfig : Type 0 where
  pub udp_bind : Option String
  pub fake_rx_time : Option Bool

-- `ForwarderBackendConfig`
pub record BackendConfig : Type 0 where
  pub semtech_udp : Option UdpConfig
  pub basic_station : Option StationConfig
  pub concentratord : Bool

-- `BasicStationConcentrator`
pub record Concentrator : Type 0 where
  pub multi_sf : List ℕ
  pub lora_frequency : ℕ
  pub lora_bandwidth : ℕ
  pub lora_spreading_factor : ℕ
  pub fsk_frequency : ℕ

-- `FrequencyMin` and `FrequencyMax`
pub record Range : Type 0 where
  pub low : ℕ
  pub high : ℕ

-- The basic station part of the configuration of the ChirpStack backend
pub record Station : Type 0 where
  pub bind : String
  pub tls_cert : String
  pub tls_key : String
  pub ca_cert : String
  pub stats_interval : ℤ
  pub ping_interval : ℤ
  pub timesync_interval : ℤ
  pub read_timeout : ℤ
  pub write_timeout : ℤ
  pub region : String
  pub frequencies : Range
  pub concentrators : List Concentrator

-- `band.Channel`
pub record Channel : Type 0 where
  pub frequency : ℕ
  pub min_dr : ℕ
  pub max_dr : ℕ

-- `band.Band`, with what the code asks of a data rate; `none` is an error.
pub record Band (Rate : Type 0) : Type 0 where
  pub name : String
  pub enabled_uplinks : List ℕ
  pub uplink_channel : ℕ → Option Channel
  pub downlink_channel : ℕ → Option Channel
  pub rx1_channel : ℕ → Option ℕ
  pub data_rate : ℕ → Option Rate
  pub rx2_frequency : ℕ
  pub same_rate : Rate → Rate → Bool
  pub is_lora : Rate → Bool
  pub is_fsk : Rate → Bool
  pub is_lr_fhss : Rate → Bool
  pub bandwidth : Rate → ℕ
  pub spread_factor : Rate → ℕ

-- What `buildBackend` comes to: a backend with the configuration it was given, an error, the end of
-- the process by `logrus.Fatal`, or a panic on a nil pointer.
pub data Built : Type 0 where
  station_backend : Station → Built
  udp_backend : String → Bool → Built
  refused stopped panicked : Built

-- The two comparisons of a frequency with `FrequencyMin` and `FrequencyMax`
unfoldable pub widen : ℕ → Range → Range
widen f r = record {
  low = if ltb f r.low then f else r.low;
  high = if ltb r.high f then f else r.high;
}

abbrev pub no_range : Range
no_range = record { low = 2 ^ 32 - 1; high = 0 }

abbrev pub no_concentrator : Concentrator
no_concentrator = record {
  multi_sf = [];
  lora_frequency = 0;
  lora_bandwidth = 0;
  lora_spreading_factor = 0;
  fsk_frequency = 0;
}

module _ {Rate : Type 0} (b : Band Rate) where
  -- The loop `for dr := channel.MaxDR; dr > 0; dr--` from the rate found before it
  unfoldable pub lora_rate : ℕ → Rate → Option Rate
  lora_rate zero rate = some rate
  lora_rate (suc dr) rate = elim (b.data_rate (suc dr)) [
    | none ↦ none
    | some next ↦ let below = lora_rate dr next in if b.is_lora next then some next else below
  ]

  -- `maxDr` of a channel, where the top rate may be LR-FHSS
  unfoldable pub top_rate : Channel → Option Rate
  top_rate ch = elim (b.data_rate ch.max_dr) [
    | none ↦ none
    | some rate ↦ if b.is_lr_fhss rate then lora_rate ch.max_dr rate else some rate
  ]

  -- The part of the concentrator that an uplink channel goes to
  unfoldable pub assign : ℕ → Rate → Rate → Concentrator → Concentrator
  assign f least top c =
      if not (b.same_rate least top)
      then record c { multi_sf = c.multi_sf ++ f ∷ [] }
      else if b.is_lora least
      then record c {
        lora_frequency = f;
        lora_bandwidth = b.bandwidth least;
        lora_spreading_factor = b.spread_factor least;
      }
      else if b.is_fsk least
      then record c { fsk_frequency = f }
      else c

  -- The loop of `loadBasicStationRegionConfigUplink`; `none` is `logrus.Fatal`.
  unfoldable pub load_uplinks : List ℕ → Range → Concentrator → Option (Range × Concentrator)
  load_uplinks [] r c = some (r, c)
  load_uplinks (i ∷ is) r c = do
    ch ← b.uplink_channel i
    least ← b.data_rate ch.min_dr
    top ← top_rate ch
    load_uplinks is (widen ch.frequency r) (assign ch.frequency least top c)

  -- The loop of `loadBasicStationRegionConfigDownlink`, with `reportedIndexes`
  unfoldable pub load_downlinks : List ℕ → List ℕ → Range → Option Range
  load_downlinks [] reported r = some r
  load_downlinks (i ∷ is) reported r = elim (b.rx1_channel i) [
    | none ↦ none
    | some j ↦
        let rest = load_downlinks is reported r in
        let read = (do
          ch ← b.downlink_channel j
          top ← top_rate ch
          load_downlinks is (reported ++ j ∷ []) (widen ch.frequency r)) in
        if contains j reported then rest else read
  ]

  -- `loadBasicStationRegionConfigUplink` and then `loadBasicStationRegionConfigDownlink`
  unfoldable pub load_region : Option (Range × Concentrator)
  load_region = do
    (r, c) ← load_uplinks b.enabled_uplinks no_range no_concentrator
    s ← load_downlinks b.enabled_uplinks [] r
    some (widen b.rx2_frequency s, c)

-- The assignments of `buildBasicStationBackend`, for a band of the given name; `none` is a nil
-- pointer that is read. `Bind` is not among them.
unfoldable pub station_of : String → StationConfig → Option Station
station_of name cfg = do
  ca ← cfg.ca_cert
  cert ← cfg.tls_cert
  key ← cfg.tls_key
  stats ← cfg.stats_interval
  ping ← cfg.ping_interval
  timesync ← cfg.timesync_interval
  read ← cfg.read_timeout
  write ← cfg.write_timeout
  some (record {
    bind = "";
    tls_cert = cert;
    tls_key = key;
    ca_cert = ca;
    stats_interval = stats;
    ping_interval = ping;
    timesync_interval = timesync;
    read_timeout = read;
    write_timeout = write;
    region = name;
    frequencies = record { low = 0; high = 0 };
    concentrators = [];
  })

abbrev pub or_default {ℓ} : {A : Type ℓ} → A → Option A → A
or_default d none = d
or_default d (some a) = a

-- `frequency_plan.GetBand` after `strings.ToUpper`, and the constructors of the ChirpStack backends,
-- which may fail.
pub record Externals (Rate : Type 0) : Type 0 where
  pub band_of : String → Option (Band Rate)
  pub new_udp : String → Bool → Bool
  pub new_station : Station → Bool

module _ {Rate : Type 0} (ext : Externals Rate) where
  -- `buildSemtechUDPBackend`
  unfoldable pub build_udp : UdpConfig → Built
  build_udp cfg =
      let bind = or_default "0.0.0.0:1680" cfg.udp_bind in
      let fake = or_default false cfg.fake_rx_time in
      if ext.new_udp bind fake then udp_backend bind fake else refused

  -- `buildBasicStationBackend`
  unfoldable pub build_station : StationConfig → Built
  build_station cfg = elim (ext.band_of cfg.region) [
    | none ↦ refused
    | some b ↦ elim (station_of b.name cfg) [
      | none ↦ panicked
      | some s ↦ elim (load_region b) [
        | none ↦ stopped
        | some (r, c) ↦
            let full : Station = record s { frequencies = r; concentrators = c ∷ [] } in
            if ext.new_station full then station_backend full else refused
      ]
    ]
  ]

  abbrev pub build_other : BackendConfig → Built
  build_other cfg = elim cfg.semtech_udp [ none ↦ refused | some udp ↦ build_udp udp ]

  -- `buildBackend`
  unfoldable pub build_backend : BackendConfig → Built
  build_backend cfg = elim cfg.basic_station [
    | none ↦ build_other cfg
    | some station ↦ if str_eq station.region "" then build_other cfg else build_station station
  ]
