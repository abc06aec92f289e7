-- ===== src/RouterClient.antt =====
-- `RouterClient` of forwarder/router_client.go: one step of the select loop of `run` for each of its
-- cases, the reconnect loop of `Run`, and `updateJoinFilter`. What a step reads from outside is its
-- input: the time, and whether a `Send` on the event stream succeeds.
pub mod Defs
pub mod Step
pub mod Reconnect
pub mod Acks
pub mod AckRuns
pub mod Forwarding
pub mod Online
pub mod Endpoint
pub mod Backoff
mod Tests
