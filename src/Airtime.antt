-- ===== src/Airtime.antt =====
-- The airtime of LoRa frames: airtime/airtime.go. The formula is `CalculateLoRaAirtime` of
-- brocaar/lorawan, a parameter; a duration is a number of milliseconds where the code uses it.
use packet_handling.Base.{
  ℕ, ◌*◌, ◌/◌, Bool, true, Option, none, some, List, [], ◌∷◌, ◌==◌, leb, if◌then◌else◌, length,
}
use packet_handling.Wire.{Lora, UplinkFrame, DownlinkFrame}

-- `airtime.CodingRate`
pub data CodingRate : Type 0 where
  coding_rate_45 coding_rate_46 coding_rate_47 coding_rate_48 : CodingRate

-- Payload length, spreading factor, kHz, preamble, coding rate, header and low data rate
-- optimisation give a duration in nanoseconds, or an error.
abbrev pub Calculate : Type 0
Calculate = ℕ → ℕ → ℕ → ℕ → CodingRate → Bool → Bool → Option ℕ

-- The numbers of the enum `gw.CodeRate`: CR_4_5 is 1, CR_4_8 is 4
unfoldable pub coding_rate : ℕ → Option CodingRate
coding_rate code =
    if code == 1
    then some coding_rate_45
    else if code == 2
    then some coding_rate_46
    else if code == 3
    then some coding_rate_47
    else if code == 4
    then some coding_rate_48
    else none

module _ (calculate : Calculate) where
  lora_airtime : List ℕ → Option Lora → Option ℕ
  lora_airtime payload none = none
  lora_airtime payload (some lora) = elim (coding_rate lora.code_rate) [
    | none ↦ none
    | some rate ↦
        calculate (length payload) lora.spreading_factor (lora.bandwidth / 1000) 8 rate true
          (leb 11 lora.spreading_factor)
  ]

  -- `UplinkAirtime`, `none` on an error
  unfoldable pub uplink_airtime : UplinkFrame → Option ℕ
  unfolding lora_airtime
  uplink_airtime frame = lora_airtime frame.phy_payload frame.lora

  -- `DownlinkAirtime` panics on a frame without items, which is the outer `none`.
  unfoldable pub downlink_airtime : DownlinkFrame → Option (Option ℕ)
  unfolding lora_airtime
  downlink_airtime frame = elim frame.items [
    | [] ↦ none
    | item ∷ items ↦ elim (lora_airtime item.phy_payload item.lora) [
      | none ↦ some none
      | some airtime ↦ some (some (airtime * 8))
    ]
  ]
