-- ===== src/Exchange.antt =====
-- The packet exchange of the forwarder: forwarder/exchange.go, forwarder/metadata.go and the
-- conversions of forwarder/utils.go. Counters and log lines are left out.
pub mod Handlers
pub mod Orderly
pub mod Forwards
pub mod Runs
pub mod RoundTrip
mod Tests
use packet_handling.Base.{
  ℕ, ◌+◌, String, Bool, true, false, not, ◌&&◌, ◌||◌, Option, none, some, List, [], ◌∷◌, ◌++◌, ltb,
  ◌==◌, if◌then◌else◌, length,
}
use packet_handling.Wire.{
  AirtimePayment, UplinkFrame, Lora, Location, DownlinkFrame, DownlinkTxAck, GatewayEvent,
}
use packet_handling.DevAddr.{DevAddr}
use packet_handling.GatewayStore
use packet_handling.GatewayStore.{Gateway, Details, Maps}
use packet_handling.UnknownGateways.{Recorder}
use packet_handling.Airtime.{Calculate}

-- The LoRaWAN packet of brocaar/lorawan: the message types, and the payloads told apart by type.
pub data MType : Type 0 where
  join_request join_accept unconfirmed_data_up unconfirmed_data_down confirmed_data_up : MType
  confirmed_data_down rejoin_request proprietary : MType

pub record Mac : Type 0 where
  pub dev_addr : DevAddr
  pub f_port : Option ℕ

pub data MacPayload : Type 0 where
  mac_payload : Mac → MacPayload
  join_request_payload : ℕ → MacPayload
  other_payload : MacPayload

pub record Phy : Type 0 where
  pub mtype : MType
  pub payload : MacPayload

-- Code that is not in this repository: the gateway store's, the codec of lorawan, the airtime
-- formula, the texts of identifiers and numbers, and the H3 cells.
pub record Externals : Type 0 where
  pub store : GatewayStore.Externals
  pub eui_string : ℕ → String
  pub id_string : ℕ → String
  pub address_string : ℕ → String
  pub band_string : ℕ → String
  pub decimal : ℕ → String
  pub float_string : ℕ → String
  pub lat_lon : String → Option (ℕ × ℕ)
  pub unmarshal_phy : List ℕ → Option Phy
  pub calculate : Calculate

-- The exchange: the gateways of its store, its recorder, and the messages that wait in the buffer of
-- the broadcaster to the router clients.
pub record Exchange : Type 0 where
  pub gateways : Maps
  pub recorder : Recorder
  pub waiting : List GatewayEvent

pub data Effect : Type 0 where
  -- `HandleMapperPacket` and `SendDownlinkFrame` on the backend
  to_mapper : UplinkFrame → Mac → Effect
  to_backend : DownlinkFrame → Effect
  -- `AddPayment` of the accounter
  add_payment : AirtimePayment → Effect

-- The buffer of `broadcast.New[*GatewayEvent](1024)`, and `TryBroadcast`
abbrev pub buffer_size : ℕ
buffer_size = 1024

unfoldable pub try_broadcast : GatewayEvent → Exchange → Exchange
try_broadcast e s =
    if ltb (length s.waiting) buffer_size then record s { waiting = s.waiting ++ e ∷ [] } else s

-- `IsMaybeMapperPacket`; the getters of a frame without LoRa give 0.
abbrev pub or_nil : Option Lora → Lora
or_nil none = record {
  bandwidth = 0;
  spreading_factor = 0;
  code_rate = 0;
  polarization_inversion = false;
}
or_nil (some lora) = lora

unfoldable pub is_maybe_mapper_packet : UplinkFrame → Mac → Bool
is_maybe_mapper_packet frame mac =
    if not ((or_nil frame.lora).spreading_factor == 7)
    then false
    else if not ((or_nil frame.lora).bandwidth == 125000)
    then false
    else elim mac.f_port [
      | none ↦ false
      | some port ↦
          if not (port == 1) && not (port == 2)
          then false
          else if not (mac.dev_addr.b0 == 2)
          then false
          else true
    ]

module _ (ext : Externals) where
  -- `localUplinkFrameToNetwork`, `localDownlinkTxAckToNetwork` and `networkDownlinkFrameToLocal`
  abbrev pub local_uplink_frame_to_network : Gateway → UplinkFrame → UplinkFrame
  local_uplink_frame_to_network gw frame = record frame {
    gateway_id = ext.eui_string gw.network_id;
  }

  abbrev pub local_downlink_tx_ack_to_network : Gateway → DownlinkTxAck → DownlinkTxAck
  local_downlink_tx_ack_to_network gw ack = record ack { gateway_id = ext.eui_string gw.network_id }

  abbrev pub network_downlink_frame_to_local : Gateway → DownlinkFrame → DownlinkFrame
  network_downlink_frame_to_local gw frame = record frame {
    gateway_id = ext.eui_string gw.local_id;
  }

  -- `setChaindataInFrameMetadata`: the metadata map, in the order of the assignments, whose keys are
  -- all different, and the location where the frame has none.
  owner_data : Option ℕ → List (String × String)
  owner_data none = []
  owner_data (some owner) = ("thingsix_owner", ext.address_string owner) ∷ []

  location_data : Option String → Option ℕ → List (String × String) × Option Location
  location_data (some cell) (some altitude) = elim (ext.lat_lon cell) [
    | none ↦ (("thingsix_location_hex", cell) ∷ [], none)
    | some (lat, lon) ↦ (
      ("thingsix_location_hex", cell)
          ∷ ("thingsix_location_latitude", ext.float_string lat)
          ∷ ("thingsix_location_longitude", ext.float_string lon)
          ∷ ("thingsix_altitude", ext.decimal altitude)
          ∷ [],
      some (record { latitude = lat; longitude = lon; altitude = altitude }),
    )
  ]
  location_data (some cell) none = ([], none)
  location_data none altitude = ([], none)

  band_data : Option ℕ → List (String × String)
  band_data none = []
  band_data (some band) = ("thingsix_frequency_plan", ext.band_string band) ∷ []

  gain_data : Option String → List (String × String)
  gain_data none = []
  gain_data (some gain) = ("thingsix_antenna_gain", gain) ∷ []

  details_data : Option Details → List (String × String) × Option Location
  unfolding location_data band_data gain_data
  details_data none = ([], none)
  details_data (some d) =
      let at = location_data d.location d.altitude in
      (at.0 ++ band_data d.band ++ gain_data d.antenna_gain, at.1)

  first_location : Option Location → Option Location → Option Location
  first_location (some l) other = some l
  first_location none other = other

  unfoldable pub set_chaindata_in_frame_metadata : UplinkFrame → Gateway → ℕ → UplinkFrame
  unfolding owner_data details_data first_location
  set_chaindata_in_frame_metadata frame gw airtime_ms =
      let extra = details_data gw.details in
      record frame {
        metadata =
            ("network", "thingsix")
            ∷ ("thingsix_gateway_id", ext.id_string gw.thingsix_id)
            ∷ ("thingsix_airtime_ms", ext.decimal airtime_ms)
            ∷ (owner_data gw.owner ++ extra.0);
        location = first_location frame.location extra.1;
      }
