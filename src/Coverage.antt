-- ===== src/Coverage.antt =====
-- The client of the coverage mapping services: forwarder/coverage_client.go. A cell of H3 is a
-- number; what a service or the index endpoint answers is an input.
use packet_handling.Base.{
  ℕ, String, Bool, true, false, Option, none, some, List, if◌then◌else◌, leb,
}
use packet_handling.GoMap.{Map, lookup}
use text.Mathlib.Text.{◌==◌ as str_eq}

-- `mapper.DiscoveryPacketReceipt`, and the same fields in `DownlinkConfirmationPacketReceipt`
pub record Receipt : Type 0 where
  pub frequency : ℕ
  pub rssi : ℕ
  pub lora_snr : ℕ
  pub spreading_factor : ℕ
  pub bandwidth : ℕ
  pub code_rate : ℕ
  pub phy : List ℕ
  pub time : ℕ
  pub gateway_signature : List ℕ

-- `mapper.DownlinkTransmitRequest`
pub record TransmitRequest : Type 0 where
  pub frequency : ℕ
  pub power : ℕ
  pub bandwidth : ℕ
  pub spreading_factor : ℕ
  pub phy : List ℕ

-- The answer of the index endpoint: no request, no response, another status, or a body, `none` where
-- it does not decode.
pub data IndexAnswer : Type 0 where
  no_request no_response other_status : IndexAnswer
  status_ok : Option (Map String) → IndexAnswer

-- `refreshCoverageMappingIndex`: whether it succeeds, and the index after it
unfoldable pub refresh_index : Option String → IndexAnswer → Map String → Bool × Map String
refresh_index none answer index = (false, index)
refresh_index (some endpoint) (status_ok (some new)) index = (true, new)
refresh_index (some endpoint) (status_ok none) index = (false, index)
refresh_index (some endpoint) no_request index = (false, index)
refresh_index (some endpoint) no_response index = (false, index)
refresh_index (some endpoint) other_status index = (false, index)

-- `getCoverageMappingServiceUrlForRegion`: the empty text without a service
abbrev pub service_of : ℕ → Map String → String
service_of region index = elim (lookup region index) [ none ↦ "" | some service ↦ service ]

-- What a service answers: a failure before its body is read, or the status with the body, which is
-- `none` where it does not decode; the response may have no request to transmit.
pub data Answer : Type 0 where
  unanswered : Answer
  status : ℕ → Option (Option TransmitRequest) → Answer

-- `DeliverDiscoveryPacketReceipt`: the service that the receipt is sent to, if any, and the response
unfoldable pub deliver_discovery :
    ℕ → Answer → Map String → Option String × Option (Option TransmitRequest)
deliver_discovery region answer index =
    if str_eq (service_of region index) "" then (none, none) else (
      some (service_of region index),
      elim answer [ unanswered ↦ none | status code body ↦ if leb 400 code then none else body ],
    )

-- `DeliverDownlinkConfirmationPacketReceipt`: the service, and whether it took the receipt
unfoldable pub deliver_confirmation : ℕ → Answer → Map String → Option String × Bool
deliver_confirmation region answer index =
    if str_eq (service_of region index) "" then (none, false) else (
      some (service_of region index),
      elim answer [ unanswered ↦ false | status code body ↦ if leb 400 code then false else true ],
    )
