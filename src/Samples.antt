-- ===== src/Samples.antt =====
-- Concrete inputs and concrete versions of the outside code, for the tests of every component.
use packet_handling.Base.{
  ℕ, zero, suc, ◌≡◌, refl, ap, ◌*◌, ◌^◌, String, true, false, Option, none, some, List, [], ◌∷◌,
  contains, arith, ◌==◌, if◌then◌else◌,
}
use packet_handling.DevAddr.{DevAddr, IsAddr}
use packet_handling.Bands.{UniqueGatewayBands}
use packet_handling.GatewayIds.{be_number}
use packet_handling.Wire.{
  Lora, UplinkFrame, AirtimeReceipt, GatewayToRouterEvent, DownlinkFrame, uplink_frame_event,
  status_event,
}
use text.Mathlib.Text.{◌==◌ as str_eq}
use Prim.Native.Char.{nul}
use Prim.Native.String.{[] as no_text, ◌∷◌ as put_char}
use packet_handling.GatewayStore
use packet_handling.RouterServer
use packet_handling.RouterServer.{ManagedGateway, Server}
use packet_handling.Exchange
use packet_handling.Exchange.{mac_payload, unconfirmed_data_up}
use packet_handling.Route
use packet_handling.Route.{Router}
use packet_handling.RouterClient.Defs.{Client}

-- 26:01:02:03
abbrev pub device : DevAddr
device = record { b0 = 38; b1 = 1; b2 = 2; b3 = 3 }

pub device-IsAddr : IsAddr device
device-IsAddr = record { b0 = omega arith; b1 = omega arith; b2 = omega arith; b3 = omega arith }

-- A stand-in for SHA-256: the number that the bytes spell.
abbrev pub hash : List ℕ → ℕ
hash = be_number 0

abbrev pub route_ext : Route.Externals (List ℕ)
route_ext = record {
  is_net_id = λ a n. false;
  xor_contains = λ f k. false;
  bitmap_contains = λ m k. contains k m;
  allow = λ owner airtime. true;
}

-- A router with the block 26000000/7.
abbrev pub router : Router (List ℕ)
router = record {
  thingsix_id = 9;
  endpoint = "a:1";
  is_default = false;
  has_accounting = true;
  name = "";
  net_id = 19;
  prefix = 38 * 2 ^ 24;
  mask = 7;
  owner = 5;
  frequency_plan = 1;
  join_filter = none;
  join_bitmap = none;
}

abbrev pub plans : UniqueGatewayBands
plans = record { bands = 1 ∷ []; plans = 1 ∷ [] }

abbrev pub client : Client (List ℕ)
client = record { router = router; pending = []; last_event = [] }

abbrev pub lora : Lora
lora = record {
  bandwidth = 125000;
  spreading_factor = 9;
  code_rate = 1;
  polarization_inversion = false;
}

abbrev pub frame : UplinkFrame
frame = record {
  phy_payload = 64 ∷ 1 ∷ [];
  frequency = 868100000;
  lora = some lora;
  gateway_id = "0000000000000003";
  uplink_id = 1;
  rssi = 0;
  snr = 0;
  time = 0;
  context = [];
  metadata = [];
  location = none;
}

abbrev pub receipt : AirtimeReceipt
receipt = record { owner = 5; airtime = 50 }

-- The ThingsIX ID for which the stand-in hash gives the network ID 7.
abbrev pub gateway_key : ℕ
gateway_key = 7 * 256 ^ 24

abbrev pub uplink_event : GatewayToRouterEvent
uplink_event = record { public_key = []; owner = 5; body = uplink_frame_event frame receipt }

abbrev pub online_event : GatewayToRouterEvent
online_event = record { public_key = []; owner = 5; body = status_event true }

abbrev pub offline_event : GatewayToRouterEvent
offline_event = record { public_key = []; owner = 5; body = status_event false }

abbrev pub answer : DownlinkFrame
answer = record { downlink_id = 4; gateway_id = "0000000000000007"; items = [] }

abbrev pub read_eui : String → Option ℕ
read_eui t =
    if str_eq t "0000000000000007"
    then some 7
    else if str_eq t "0000000000000003"
    then some 3
    else none

abbrev pub server_ext : RouterServer.Externals
server_ext = record {
  sha256 = hash;
  parse_eui = read_eui;
  set_subscription = λ on id. true;
  publish = λ id. true;
}

abbrev pub own : ManagedGateway
own = record { forwarder_id = 1; gateway_id = 7; forwarder = 100; last_seen = 0 }

abbrev pub other : ManagedGateway
other = record { forwarder_id = 2; gateway_id = 8; forwarder = 200; last_seen = 0 }

abbrev pub server : Server
server = record { gateways = (7, own) ∷ (8, other) ∷ []; gauge_up = 2; gauge_down = 0 }

-- A key is written as a text of as many characters.
abbrev pub written : ℕ → String
written zero = no_text
written (suc k) = put_char nul (written k)

abbrev pub count : String → ℕ
count no_text = 0
count (put_char c s) = suc (count s)

pub count-written : (k : ℕ) → some (count (written k)) ≡ some k
count-written zero = refl
count-written (suc k) = ap (λ o. elim o [ none ↦ none | some n ↦ some (suc n) ]) (count-written k)

-- The ThingsIX ID is the key, shifted so that the stand-in hash gives it back as the network ID.
abbrev pub store_ext : GatewayStore.Externals
store_ext = record {
  sha256 = hash;
  derive_thingsix_id = λ k. k * 256 ^ 24;
  calculate_public_key_bytes = λ k. k ∷ [];
  encode_key = written;
  decode_key = λ t. some (count t);
  parse_eui = read_eui;
  to_blockchain = λ b. b;
}

-- The exchange's outside code: every payload reads as data on port 10 of the device.
abbrev pub exchange_ext : Exchange.Externals
exchange_ext = record {
  store = store_ext;
  eui_string = λ id. if id == 7 then "0000000000000007" else "0000000000000003";
  id_string = λ id. "id";
  address_string = λ a. "address";
  band_string = λ b. "EU868";
  decimal = λ n. "1";
  float_string = λ n. "0.000000";
  lat_lon = λ cell. none;
  unmarshal_phy = λ b. some (record {
    mtype = unconfirmed_data_up;
    payload = mac_payload (record { dev_addr = device; f_port = some 10 });
  });
  calculate = λ payload sf bandwidth preamble rate header low. some 50000000;
}
