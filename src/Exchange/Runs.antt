-- ===== src/Exchange/Runs.antt =====
-- A run of the exchange: its callbacks in any order, and the broadcaster at the other end of the
-- buffer (forwarder/exchange.go, forwarder/broadcast/broadcast.go).
use packet_handling.Base.{ℕ, Bool, List, [], ◌∷◌}
use packet_handling.Wire.{UplinkFrame, DownlinkTxAck}
use packet_handling.UnknownGateways.{Answers}
use packet_handling.Exchange.{Externals, Exchange}
use packet_handling.Exchange.Handlers.{uplink_frame_callback, subscribe_event, downlink_tx_ack}

-- The callbacks of the backend, and the broadcaster taking a message out of the buffer.
pub data Input : Type 0 where
  uplink_frame : Answers → ℕ → UplinkFrame → Input
  subscribe : Answers → ℕ → List ℕ → Bool → Input
  tx_ack : Answers → ℕ → DownlinkTxAck → Input
  taken : Input

unfoldable pub take_one : Exchange → Exchange
take_one s = elim s.waiting [ [] ↦ s | e ∷ es ↦ record s { waiting = es } ]

unfoldable pub exchange_step : Externals → Input → Exchange → Exchange
exchange_step ext (uplink_frame ans now frame) s = (uplink_frame_callback ext ans now frame s).0
exchange_step ext (subscribe ans now id online) s = subscribe_event ext ans now id online s
exchange_step ext (tx_ack ans now ack) s = downlink_tx_ack ext ans now ack s
exchange_step ext taken s = take_one s

unfoldable pub exchange_run : Externals → List Input → Exchange → Exchange
exchange_run ext [] s = s
exchange_run ext (i ∷ is) s = exchange_run ext is (exchange_step ext i s)
