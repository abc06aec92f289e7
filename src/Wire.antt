-- ===== src/Wire.antt =====
-- The messages between gateways, forwarder and routers: the fields of the protobuf messages
-- (chirpstack gw, router-api) that this repository reads or writes. Identifiers (EUI64, ThingsIX
-- IDs, addresses, hashes) are the numbers that their bytes spell, texts are native strings.
use packet_handling.Base.{ℕ, String, Bool, Option, List}

-- `xorfilter.Xor8`, and the same fields in `router.Xor8Filter`
pub record Xor8 : Type 0 where
  pub seed : ℕ
  pub block_length : ℕ
  pub fingerprints : List ℕ

-- `router.JoinFilter`: a nil Xor8 is `none`
pub record JoinFilter : Type 0 where
  pub xor8 : Option Xor8
  pub roaring_bitmap : List ℕ

-- `gw.LoraModulationInfo`
pub record Lora : Type 0 where
  pub bandwidth : ℕ
  pub spreading_factor : ℕ
  pub code_rate : ℕ
  pub polarization_inversion : Bool

-- `common.Location` with the source CONFIG; a float64 is the number of its bits
pub record Location : Type 0 where
  pub latitude : ℕ
  pub longitude : ℕ
  pub altitude : ℕ

-- `gw.UplinkFrame`; `lora` is the LoRa part of `TxInfo.Modulation`, nil where another one is used
pub record UplinkFrame : Type 0 where
  pub phy_payload : List ℕ
  pub frequency : ℕ
  pub lora : Option Lora
  pub gateway_id : String
  pub uplink_id : ℕ
  pub rssi : ℕ
  -- the bits of a float32
  pub snr : ℕ
  pub time : ℕ
  pub context : List ℕ
  pub metadata : List (String × String)
  pub location : Option Location

-- `gw.DownlinkFrameItem` and `gw.DownlinkFrame`
pub record DownlinkItem : Type 0 where
  pub phy_payload : List ℕ
  pub frequency : ℕ
  pub power : ℕ
  pub lora : Option Lora
  pub immediately : Bool
  pub context : List ℕ

pub record DownlinkFrame : Type 0 where
  pub downlink_id : ℕ
  pub gateway_id : String
  pub items : List DownlinkItem

-- `gw.DownlinkTxAck`
pub record DownlinkTxAck : Type 0 where
  pub downlink_id : ℕ
  pub gateway_id : String

-- `router.AirtimeReceipt`
pub record AirtimeReceipt : Type 0 where
  pub owner : ℕ
  pub airtime : ℕ

-- The oneof of `router.GatewayToRouterEvent`
pub data GatewayToRouterBody : Type 0 where
  uplink_frame_event : UplinkFrame → AirtimeReceipt → GatewayToRouterBody
  downlink_tx_ack_event : DownlinkTxAck → AirtimeReceipt → GatewayToRouterBody
  status_event : Bool → GatewayToRouterBody
  other_event : GatewayToRouterBody

-- `router.GatewayToRouterEvent` with its `GatewayInformation`; the public key is its bytes
pub record GatewayToRouterEvent : Type 0 where
  pub public_key : List ℕ
  pub owner : ℕ
  pub body : GatewayToRouterBody

-- `router.AirtimePaymentEvent`
pub record AirtimePayment : Type 0 where
  pub owner : ℕ
  pub airtime : ℕ

-- `router.RouterToGatewayEvent`
pub data RouterToGatewayEvent : Type 0 where
  downlink_frame_event : DownlinkFrame → RouterToGatewayEvent
  airtime_payment_event : AirtimePayment → RouterToGatewayEvent
  unset_event : RouterToGatewayEvent

-- `event.GetUplinkFrameEvent().GetAirtimeReceipt().GetAirtime()`: 0 where a part is missing
abbrev pub airtime_of : GatewayToRouterEvent → ℕ
airtime_of e = elim e.body [ uplink_frame_event f r ↦ r.airtime | _ ↦ 0 ]

-- `event.GetStatusEvent().Online`: false where there is no status event
abbrev pub online_of : GatewayToRouterEvent → Bool
online_of e = elim e.body [ status_event b ↦ b | _ ↦ Bool.false ]

-- `GatewayEvent` of forwarder/types.go: what the exchange broadcasts to its router clients.
pub record GatewayEvent : Type 0 where
  pub join : Option (ℕ × GatewayToRouterEvent)
  pub uplink : Option (packet_handling.DevAddr.DevAddr × GatewayToRouterEvent)
  pub online_offline : Option GatewayToRouterEvent
  pub downlink_ack : Option (ℕ × GatewayToRouterEvent)
  -- the network ID of `receivedFrom`
  pub received_from : ℕ
