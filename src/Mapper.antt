-- ===== src/Mapper.antt =====
-- The forwarding of mapper packets: forwarder/mapper.go. A handler is one step; the delivery to the
-- coverage service and its answer are a later step. Addresses and cells are numbers, a key of the
-- region cache is the address for its text.
pub mod Seen
pub mod RoundTrip
mod Tests
use packet_handling.Base.{
  ℕ, ◌+◌, ◌-◌, ◌%◌, ◌≡◌, ◌≢◌, String, Bool, true, false, Option, none, some, List, [], ◌∷◌, ◌++◌,
  ◌==◌, if◌then◌else◌, take, drop,
}
use packet_handling.Base.Int.{ℤ}
use packet_handling.Wire.{UplinkFrame, DownlinkFrame, DownlinkItem}
use packet_handling.GatewayStore
use packet_handling.GatewayStore.{Gateway, Maps, ok, err, by_network_id_string}
use packet_handling.MapperPacket.{BitOffset, packet_from_bytes, latitude, longitude}
use packet_handling.Coverage.{Receipt, TransmitRequest}
use packet_handling.Exchange.{Mac, or_nil}

-- `lru.Cache[string, string]` of golang-lru, and what it says of `Add` and `Get`
pub record Lru (C : Type 0) : Type 0 where
  pub empty : C
  pub add : ℕ → String → C → C
  pub get : ℕ → C → Option String × C

pub record IsLru {C : Type 0} (lru : Lru C) : Type 0 where
  pub get-empty : (k : ℕ) → (lru.get k lru.empty).0 ≡ none
  -- a value is found until it is evicted, and nothing else is
  pub get-add_self : (k : ℕ) (v : String) (c : C) → (lru.get k (lru.add k v c)).0 ≡ some v
  pub get-add_other :
      (k j : ℕ) (v w : String) (c : C)
      → j ≢ k
      → (lru.get j (lru.add k v c)).0 ≡ some w
      → (lru.get j c).0 ≡ some w
  pub get-get : (k j : ℕ) (c : C) → (lru.get j (lru.get k c).1).0 ≡ (lru.get j c).0

-- Other code: the store's, SHA-256, the elliptic curve of go-ethereum, H3 and protobuf. A position is
-- in millionths of a degree.
pub record Externals : Type 0 where
  pub store : GatewayStore.Externals
  pub bit_offset : BitOffset
  pub sha256 : List ℕ → ℕ
  pub ecrecover : ℕ → List ℕ → Option (List ℕ)
  pub unmarshal_pubkey : List ℕ → Option ℕ
  pub pubkey_to_address : ℕ → ℕ
  pub verify_signature : List ℕ → ℕ → List ℕ → Bool
  pub sign : ℕ → ℕ → Option (List ℕ)
  pub lat_lon_to_cell : ℤ → ℤ → ℕ
  pub cell_string : ℕ → String
  pub cell_from_string : String → Option ℕ
  pub marshal_discovery : Receipt → Option (List ℕ)
  pub marshal_confirmation : Receipt → Option (List ℕ)

-- What a handler does, in order: the cache entry that it writes, and the receipts that it hands to a
-- goroutine, with the packet's frame and the mapper.
pub data Effect : Type 0 where
  seen : ℕ → String → Effect
  discovery : UplinkFrame → ℕ → Receipt → Effect
  confirmation : ℕ → ℕ → Receipt → Effect

-- `sig[64] -= 27`, which changes the frame's payload in place: 22 bytes and a signature of 65
abbrev pub lower_v : List ℕ → List ℕ
lower_v [] = []
lower_v (v ∷ rest) = (v + 256 - 27) % 256 ∷ rest

unfoldable pub lowered : List ℕ → List ℕ
lowered phy = take 86 phy ++ lower_v (drop 86 phy)

-- The receipt before it is signed
abbrev pub receipt_of : UplinkFrame → List ℕ → Receipt
receipt_of frame phy = record {
  frequency = frame.frequency;
  rssi = frame.rssi;
  lora_snr = frame.snr;
  spreading_factor = (or_nil frame.lora).spreading_factor;
  bandwidth = (or_nil frame.lora).bandwidth;
  code_rate = (or_nil frame.lora).code_rate;
  phy = phy;
  time = frame.time;
  gateway_signature = [];
}

abbrev pub confirmation_of : ℕ → ℕ → Option Receipt → List Effect
confirmation_of mapper region none = []
confirmation_of mapper region (some r) = confirmation mapper region r ∷ []

module _ (ext : Externals) where
  -- The mapper's key and address where the packet's signature is good, on the lowered payload.
  unfoldable pub mapper_address : List ℕ → Option ℕ
  mapper_address phy =
      let h = ext.sha256 (take 22 phy) in
      let sig = drop 22 phy in
      elim (ext.ecrecover h sig) [
        | none ↦ none
        | some pkb ↦ elim (ext.unmarshal_pubkey pkb) [
          | none ↦ none
          | some pk ↦
              if ext.verify_signature pkb h (take 64 sig)
              then some (ext.pubkey_to_address pk)
              else none
        ]
      ]

  unfoldable pub signed : (Receipt → Option (List ℕ)) → ℕ → Receipt → Option Receipt
  signed marshal key r = elim (marshal r) [
    | none ↦ none
    | some bytes ↦ elim (ext.sign (ext.sha256 bytes) key) [
      | none ↦ none
      | some signature ↦ some (record r { gateway_signature = signature })
    ]
  ]

  -- `h3light.LatLonToCell(lat, lon, 1)`
  unfoldable pub region_of : List ℕ → ℕ
  region_of phy = ext.lat_lon_to_cell (latitude ext.bit_offset phy) (longitude ext.bit_offset phy)

  abbrev pub discovery_of : UplinkFrame → List ℕ → Option Receipt → List Effect
  discovery_of frame phy none = []
  discovery_of frame phy (some r) = discovery frame (region_of phy) r ∷ []

  abbrev pub on_region :
      {C : Type 0} → UplinkFrame → Gateway → List ℕ → ℕ → Option String × C → C × List Effect
  on_region frame gw phy mapper (none, c) = (c, [])
  on_region frame gw phy mapper (some text, c) = elim (ext.cell_from_string text) [
    | none ↦ (c, [])
    | some region ↦ (
      c,
      confirmation_of mapper region
          (signed ext.marshal_confirmation gw.private_key (receipt_of frame phy)),
    )
  ]

  module _ {C : Type 0} (lru : Lru C) where
    abbrev pub on_discovery : UplinkFrame → Gateway → List ℕ → Option ℕ → C → C × List Effect
    on_discovery frame gw phy none c = (c, [])
    on_discovery frame gw phy (some mapper) c =
        let region = ext.cell_string (region_of phy) in
        (
          lru.add mapper region c,
          seen mapper region
              ∷ discovery_of frame phy
                  (signed ext.marshal_discovery gw.private_key (receipt_of frame phy)),
        )

    -- `handleDiscoveryPacket`
    unfoldable pub handle_discovery_packet : Maps → UplinkFrame → C → C × List Effect
    handle_discovery_packet s frame c = elim (by_network_id_string ext.store frame.gateway_id s) [
      | err e ↦ (c, [])
      | ok gw ↦ elim (packet_from_bytes frame.phy_payload) [
        | none ↦ (c, [])
        | some phy ↦ on_discovery frame gw (lowered phy) (mapper_address (lowered phy)) c
      ]
    ]

    abbrev pub on_confirmation : UplinkFrame → Gateway → List ℕ → Option ℕ → C → C × List Effect
    on_confirmation frame gw phy none c = (c, [])
    on_confirmation frame gw phy (some mapper) c = on_region frame gw phy mapper (lru.get mapper c)

    -- `handleDownlinkConfirmationPacket`
    unfoldable pub handle_downlink_confirmation_packet : Maps → UplinkFrame → C → C × List Effect
    handle_downlink_confirmation_packet s frame c =
        elim (by_network_id_string ext.store frame.gateway_id s) [
          | err e ↦ (c, [])
          | ok gw ↦ elim (packet_from_bytes frame.phy_payload) [
            | none ↦ (c, [])
            | some phy ↦ on_confirmation frame gw (lowered phy) (mapper_address (lowered phy)) c
          ]
        ]

    -- `HandleMapperPacket`; `IsMaybeMapperPacket` has seen that there is a port.
    unfoldable pub handle_mapper_packet : Maps → UplinkFrame → Mac → C → C × List Effect
    handle_mapper_packet s frame mac c = elim mac.f_port [
      | none ↦ (c, [])
      | some port ↦
          if port == 1
          then handle_discovery_packet s frame c
          else if port == 2
          then handle_downlink_confirmation_packet s frame c
          else (c, [])
    ]

-- The downlink that a selected gateway sends for the answer of the service
unfoldable pub downlink_of : ℕ → UplinkFrame → TransmitRequest → DownlinkFrame
downlink_of downlink_id frame dtr = record {
  downlink_id = downlink_id;
  gateway_id = frame.gateway_id;
  items =
      record {
        phy_payload = dtr.phy;
        frequency = dtr.frequency;
        power = dtr.power;
        lora = some (record {
          bandwidth = dtr.bandwidth;
          spreading_factor = dtr.spreading_factor;
          code_rate = 1;
          polarization_inversion = true;
        });
        immediately = true;
        context = frame.context;
      }
      ∷ [];
}
