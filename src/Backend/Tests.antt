-- ===== src/Backend/Tests.antt =====
-- Tests of the configuration of the backend (forwarder/backend.go).
use packet_handling.Base.{
  ℕ, zero, suc, ◌≡◌, refl, true, false, none, some, [], ◌∷◌, ◌==◌, if◌then◌else◌, arith,
}
use packet_handling.Base.Int.{pos}
use packet_handling.Backend.{
  Band, Channel, Range, Concentrator, StationConfig, BackendConfig, Station, Externals,
  station_backend, udp_backend, panicked, load_region, build_backend, build_udp, build_station,
  station_of, load_uplinks, top_rate, load_downlinks, widen, assign,
}
use packet_handling.Backend.Widen.{Within}
use packet_handling.Backend.Frequencies.{Used, load_region_lem}
use packet_handling.Backend.Settings.{Configures, build_backend_station}

abbrev channel : ℕ → Channel
channel f = record { frequency = f; min_dr = 0; max_dr = 5 }

-- Two uplink channels with the data rates 0 to 5, and a third with one rate; RX1 is on the same
-- frequency and RX2 above them.
abbrev band : Band ℕ
band = record {
  name = "EU868";
  enabled_uplinks = 0 ∷ 1 ∷ 2 ∷ [];
  uplink_channel = λ i. elim i [
    | zero ↦ some (channel 868100000)
    | suc zero ↦ some (channel 867100000)
    | _ ↦ some (record { frequency = 868300000; min_dr = 6; max_dr = 6 })
  ];
  downlink_channel = λ i. some (channel (if i == 1 then 867100000 else 868100000));
  rx1_channel = λ i. some (if i == 1 then 1 else 0);
  data_rate = λ dr. some dr;
  rx2_frequency = 869525000;
  same_rate = ◌==◌;
  is_lora = λ r. true;
  is_fsk = λ r. false;
  is_lr_fhss = λ r. false;
  bandwidth = λ r. 250;
  spread_factor = λ r. 7;
}

abbrev range : Range
range = record { low = 867100000; high = 869525000 }

abbrev concentrator : Concentrator
concentrator = record {
  multi_sf = 868100000 ∷ 867100000 ∷ [];
  lora_frequency = 868300000;
  lora_bandwidth = 250;
  lora_spreading_factor = 7;
  fsk_frequency = 0;
}

load_region_test : load_region band ≡ some (range, concentrator)
unfolding load_region load_uplinks top_rate load_downlinks widen assign
load_region_test = refl

load_region_lem_example :
    ((f : ℕ) → Used band f → Within f range) × Used band range.low × Used band range.high
load_region_lem_example = load_region_lem band range concentrator (omega arith) load_region_test

abbrev ext : Externals ℕ
ext = record { band_of = λ name. some band; new_udp = λ bind fake. true; new_station = λ s. true }

abbrev station_config : StationConfig
station_config = record {
  bind = some "0.0.0.0:8887";
  tls_cert = some "cert.pem";
  tls_key = some "private_key.pem";
  ca_cert = some "ca_cert.pem";
  stats_interval = some (pos 30);
  ping_interval = some (pos 60);
  timesync_interval = some (pos 3600);
  read_timeout = some (pos 65);
  write_timeout = some (pos 1);
  region = "eu868";
}

abbrev config : BackendConfig
config = record {
  semtech_udp = some (record { udp_bind = none; fake_rx_time = none });
  basic_station = some station_config;
  concentratord = false;
}

abbrev station : Station
station = record {
  bind = "";
  tls_cert = "cert.pem";
  tls_key = "private_key.pem";
  ca_cert = "ca_cert.pem";
  stats_interval = pos 30;
  ping_interval = pos 60;
  timesync_interval = pos 3600;
  read_timeout = pos 65;
  write_timeout = pos 1;
  region = "EU868";
  frequencies = range;
  concentrators = concentrator ∷ [];
}

build_backend_test : build_backend ext config ≡ station_backend station
unfolding build_backend build_station station_of load_region load_uplinks top_rate load_downlinks
    widen assign
build_backend_test = refl

-- Without a certificate the pointer that is read is nil.
no_certificate_test :
    build_backend ext
      (record config { basic_station = some (record station_config { ca_cert = none }) })
    ≡ panicked
unfolding build_backend build_station station_of
no_certificate_test = refl

-- Without a region the other backend is built, on its default address.
udp_test :
    build_backend ext
      (record config { basic_station = some (record station_config { region = "" }) })
    ≡ udp_backend "0.0.0.0:1680" false
unfolding build_backend build_udp
udp_test = refl

build_backend_station_example :
    (st : StationConfig) × (config.basic_station ≡ some st) × Configures ext st station
build_backend_station_example = build_backend_station ext config station build_backend_test
