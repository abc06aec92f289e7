-- ===== src/Lib.antt =====
-- The packet handling of ThingsIX: the forwarder between LoRa gateways and routers, and the router
-- between forwarders and a network server.
--
-- A gateway's packet arrives at the forwarder's exchange, which looks the gateway up in its store,
-- rewrites the local ID to the network ID and broadcasts the packet to one client per router. A
-- client sends what its router is interested in. The router keeps a map of the gateways that are
-- online and the forwarder each was last heard from, publishes uplinks to its integration, and sends
-- downlinks back by that map. The exchange turns them into frames for the gateway.
--
-- Base: shared names, list functions, the bits of machine words, times in nanoseconds. GoMap: Go maps
-- as association lists, in the order of a `range`. Wire: the protobuf messages. Samples: concrete
-- inputs for the tests, which stand in the module Tests of each component.
-- DevAddr: SetDevAddrPrefix and DevAddrHasPrefix (forwarder/utils.go), NetIDType (utils/lorawan.go).
-- Route: Router and its methods (forwarder/routes.go). Bands: UniqueGatewayBands (gateway/store.go).
-- RoutingTable: Run, keepRouteTableUpToDate and runDefaultRouting (forwarder/routes.go); a result
-- `none` is a panic.
-- RouteFetch: fetchRoutersFromChain and fetchRoutersFromThingsIXAPI (forwarder/utils.go), and the
-- choice between them (forwarder/routes.go); the loop
-- over the contract's pages runs on fuel, one round for each 2500 routers and one more.
-- RouterClient: RouterClient (forwarder/router_client.go). Step has one function for each case of the
-- select of `run`, and `step` and `run` put them together; Reconnect is the loop of `Run`.
-- Airtime: airtime/airtime.go. UnknownGateways: gateway/unknown_recorder.go; Yaml has the entries of
-- its file and the start of the recorder.
-- Exchange: Exchange (forwarder/exchange.go), setChaindataInFrameMetadata (forwarder/metadata.go),
-- IsMaybeMapperPacket (forwarder/mapper.go). Handlers has the callbacks; what a callback orders of
-- other parts is a list of effects. Runs is a run of callbacks in any order.
-- Broadcast: forwarder/broadcast/broadcast.go, with the channels of its listeners.
-- GatewayIds: network IDs (gateway/store.go, gateway/gateway.go).
-- GatewayStore: gateway/store.go, gateway/store_yaml_file.go (Yaml) and gateway/store_postgres.go
-- (Postgres); the file is the list of its entries, and what the file system, the database and the
-- registry answer is an input.
-- Registry: gateway/registry_thingsix_api.go with cachedData of gateway/registry.go; Outcome is what a
-- call returns and leaves in the cache. OnChain: gateway/registry_smart_contract.go and the choice of
-- the registry.
-- Identifiers: the text form of ThingsIX IDs (gateway/gateway.go) and new keys (utils/thingsix.go); the
-- loop of GeneratePrivateKey runs on fuel, one round more than the draws with the wrong prefix.
-- MapperPacket: mapperpacket/packet.go. Coverage: forwarder/coverage_client.go.
-- Mapper: forwarder/mapper.go; Effect is what a handler writes and hands to a goroutine.
-- Api: the handlers of forwarder/api.go and gateway/onboard.go, over GatewayStore.Interface, which
-- both stores fill.
-- Backend: forwarder/backend.go; `none` of a loop is the end of the process by logrus.Fatal.
-- Config: the configuration of the forwarder (forwarder/config.go, forwarder/config_type.go); Load is
-- mustLoadConfig, for any change that the configuration file makes to the defaults, and Choice the
-- choice of the gateway store (gateway/config.go, gateway/store.go).
-- Integration: router/integrations.go, and the listener's address of router/config.go.
-- RouterKey: router/key.go, over what stands at the path of the file, and GenerateKey of router/cmd.go.
-- RouterServer: router/router.go; Loop is the event loop of one forwarder.
-- JoinFilter: router/joinfilter.go; the paging loops run on fuel, one round more than full pages.
--
-- A goroutine's work under a lock, or between two receives, is one step; steps are taken in any
-- order. An EUI64, a ThingsIX ID, an address or a digest is the number that its bytes spell, and a
-- time is a number of nanoseconds. The code of other repositories (lorawan, xorfilter, roaring64,
-- go-ethereum, ChirpStack's services, SHA-256) is a record of functions named Externals or
-- Chirpstack, and the theorems hold for each such record.
--
-- Not modelled: the HTTP server, the command line, the decoding of configuration files, metrics,
-- and the copy of ChirpStack's gateway bridge.
pub mod Base
pub mod Samples
pub mod GoMap
pub mod DevAddr
pub mod Wire
pub mod Route
pub mod Bands
pub mod RoutingTable
pub mod RouteFetch
pub mod Broadcast
pub mod Registry
pub mod RouterClient
pub mod GatewayIds
pub mod RouterServer
pub mod JoinFilter
pub mod GatewayStore
pub mod Airtime
pub mod UnknownGateways
pub mod Exchange
pub mod Identifiers
pub mod MapperPacket
pub mod Coverage
pub mod Mapper
pub mod Api
pub mod Integration
pub mod Config
pub mod RouterKey
pub mod Backend
