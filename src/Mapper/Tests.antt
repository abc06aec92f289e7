-- ===== src/Mapper/Tests.antt =====
-- Tests of the handling of mapper packets (forwarder/mapper.go).
use packet_handling.Base.{
  drop, ℕ, zero, suc, ◌≡◌, refl, String, true, false, Option, none, some, List, [], ◌∷◌, ◌++◌, ◌==◌,
  if◌then◌else◌, arith,
}
use packet_handling.Base.Int.{pos}
use packet_handling.GoMap.{Map, lookup}
use packet_handling.Wire.{Lora, UplinkFrame}
use packet_handling.GatewayStore.{Gateway, new_gateway}
use packet_handling.UnknownGateways.{Answers, entire, no_recorder}
use packet_handling.Exchange
use packet_handling.Exchange.{
  Exchange, Mac, unconfirmed_data_up, mac_payload, to_mapper, to_backend, is_maybe_mapper_packet,
}
use packet_handling.Exchange.Handlers.{network_frame, uplink_frame_callback, handle_downlink_frame}
use packet_handling.MapperPacket.{bits}
use packet_handling.Coverage.{Receipt, TransmitRequest, status, deliver_discovery}
use packet_handling.Mapper.{
  Lru, IsLru, Externals, seen, discovery, lowered, mapper_address, signed, region_of, receipt_of,
  handle_mapper_packet, downlink_of,
}
use packet_handling.Mapper.Seen.{Backed, run_mapper, confirmation_follows_discovery}
use packet_handling.Mapper.RoundTrip.{discovery_answered}
use packet_handling.Samples.{frame, store_ext, exchange_ext}

abbrev found : ℕ → Option (ℕ × String) → Option String
found k none = none
found k (some (j, v)) = if j == k then some v else none

-- A cache of one entry.
abbrev one_entry : Lru (Option (ℕ × String))
one_entry = record { empty = none; add = λ k v c. some (k, v); get = λ k c. (found k c, c) }

one_entry-IsLru : IsLru one_entry
one_entry-IsLru = record {
  get-empty = λ k. refl;
  get-add_self = λ k v c. ground arith;
  get-add_other = λ k j v w c h e. ground arith;
  get-get = λ k j c. refl;
}

-- The stand-ins: every signature is good and its mapper has the address 6, a receipt is marshalled as
-- its payload, and signed with the key.
abbrev ext : Externals
ext = record {
  store = store_ext;
  bit_offset = record {
    set_uint8 = λ b o n v. b;
    uint8 = bits;
    uint32 = bits;
    int32 = λ b o n. pos (bits b o n);
  };
  sha256 = λ b. 1;
  ecrecover = λ h sig. some sig;
  unmarshal_pubkey = λ k. some 4;
  pubkey_to_address = λ k. 6;
  verify_signature = λ k h sig. true;
  sign = λ h key. some (key ∷ []);
  lat_lon_to_cell = λ lat lon. 12;
  cell_string = λ cell. "12";
  cell_from_string = λ text. some 12;
  marshal_discovery = λ r. some r.phy;
  marshal_confirmation = λ r. some r.phy;
}

abbrev zeros : ℕ → List ℕ
zeros zero = []
zeros (suc n) = 0 ∷ zeros n

abbrev mapper_lora : Lora
mapper_lora = record {
  bandwidth = 125000;
  spreading_factor = 7;
  code_rate = 1;
  polarization_inversion = false;
}

abbrev heard : UplinkFrame
heard = record frame { phy_payload = zeros 86 ++ 28 ∷ []; lora = some mapper_lora }

abbrev mac : Mac
mac = record { dev_addr = record { b0 = 2; b1 = 0; b2 = 0; b3 = 0 }; f_port = some 1 }

abbrev exchange : Exchange.Externals
exchange = record exchange_ext {
  unmarshal_phy = λ b. some (record { mtype = unconfirmed_data_up; payload = mac_payload mac });
}

abbrev gateway : Gateway
unfolding new_gateway
gateway = new_gateway store_ext 3 7

abbrev state : Exchange
unfolding gateway
state = record {
  gateways = record {
    by_local_id = (3, gateway) ∷ [];
    by_net_id = (7, gateway) ∷ [];
    by_thingsix_id = [];
    default_plan = none;
  };
  recorder = no_recorder;
  waiting = [];
}

abbrev willing : Answers
willing = record { opens = true; writes = entire }

abbrev request : TransmitRequest
request = record {
  frequency = 868100000;
  power = 14;
  bandwidth = 125000;
  spreading_factor = 7;
  phy = [];
}

abbrev receipt : Receipt
receipt = record (receipt_of heard (lowered heard.phy_payload)) { gateway_signature = 7 ∷ [] }

abbrev index : Map String
index = (12, "https://eu") ∷ []

abbrev network : UplinkFrame
network = network_frame exchange willing 0 gateway heard

confirmation_follows_discovery_example : Backed ext [] (
    run_mapper ext one_entry
      (record { gateways = state.gateways; frame = network; mac = mac }
        ∷ record {
          gateways = state.gateways;
          frame = network;
          mac = record mac { f_port = some 2 };
        }
        ∷ [])
      none)
confirmation_follows_discovery_example =
    confirmation_follows_discovery ext one_entry one_entry-IsLru (
      record { gateways = state.gateways; frame = network; mac = mac }
      ∷ record { gateways = state.gateways; frame = network; mac = record mac { f_port = some 2 } }
      ∷ [])

discovery_answered_example :
    (uplink_frame_callback exchange willing 0 heard state ≡ (state, to_mapper network mac ∷ []))
    × ((handle_mapper_packet ext one_entry state.gateways network mac none).1
        ≡ seen 6 (ext.cell_string (region_of ext (lowered heard.phy_payload)))
          ∷ discovery network (region_of ext (lowered heard.phy_payload)) receipt
          ∷ [])
    × ((deliver_discovery
          (region_of ext (lowered heard.phy_payload))
          (status 200 (some (some request)))
          index).0
        ≡ lookup (region_of ext (lowered heard.phy_payload)) index)
    × (handle_downlink_frame exchange willing 0 (downlink_of 5 network request) state
        ≡ some (
            to_backend (record (downlink_of 5 network request) {
              gateway_id = exchange.eui_string gateway.local_id;
            })
            ∷ []))
unfolding gateway state is_maybe_mapper_packet mapper_address signed lowered deliver_discovery
    region_of packet_handling.GatewayIds.network_id_of_id
discovery_answered_example =
    discovery_answered ext exchange one_entry willing 0 3 5 4 (drop 22 (lowered heard.phy_payload))
      (lowered heard.phy_payload) (7 ∷ []) heard gateway mac state none
      (status 200 (some (some request))) index request refl refl refl refl refl refl refl refl refl
      refl refl refl refl refl refl
