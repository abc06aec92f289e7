-- ===== src/Registry/OnChain.antt =====
-- The gateway registry behind the smart contract (gateway/registry_smart_contract.go), and the choice
-- of the registry (gateway/registry.go). The node and the contract are inputs; the numbers of the
-- contract are those of its types, a head block is below 2^64.
use packet_handling.Base.{
  ℕ, ◌+◌, ◌-◌, ◌*◌, ◌%◌, ◌^◌, ◌≡◌, refl, ◌↔◌, ◌∙◌, ap, sym, inl, inr, String, Bool, true, false,
  Option, none, some, ltb, ◌==◌, if◌then◌else◌, arith, Option-cases, Bool-cases,
}
use mathlib.Core.Option.{some-injective}
use packet_handling.GatewayStore.{RegistryEntry}
use text.Mathlib.Text.{◌==◌ as str_eq}

-- `RegistrySyncOnChainConfig`
pub record OnChainConfig : Type 0 where
  pub endpoint : String
  pub confirmation : ℕ
  pub chain_id : ℕ
  pub address : ℕ

-- `GatewayThingsIXSmartContract`
pub record SmartContract : Type 0 where
  pub endpoint : String
  pub confirmations : ℕ
  pub addr : ℕ

-- What the contract has of a gateway.
pub record ChainGateway : Type 0 where
  pub owner : ℕ
  pub version : ℕ
  pub antenna_gain : ℕ
  pub frequency_plan : ℕ
  pub location : ℕ
  pub altitude : ℕ

-- The node: whether it is reached and the caller is bound, its head block, and `Gateways` at a block.
pub record ChainNode : Type 0 where
  pub dials : Bool
  pub binds : Bool
  pub head : Option ℕ
  pub gateways : ℕ → ℕ → Option ChainGateway

-- The text of a gain in tenths, `frequency_plan.FromBlockchain`, and the text of a cell
pub record Texts : Type 0 where
  pub gain_text : ℕ → String
  pub from_blockchain : ℕ → ℕ
  pub cell_text : ℕ → String

-- `buildThingsIXRegistryOnChainSyncer`, by whether the endpoint parses
unfoldable pub build_on_chain_syncer : Bool → OnChainConfig → Option SmartContract
build_on_chain_syncer parses cfg =
    if parses
    then if cfg.address == 0
      then none
      else some
          (record { endpoint = cfg.endpoint; confirmations = cfg.confirmation; addr = cfg.address })
    else none

-- The registry in use, with the endpoint of the API
pub data Registry : Type 0 where
  on_chain : SmartContract → Registry
  thingsix_api : String → Registry

-- `RegistrySyncConfig`
pub record SyncConfig : Type 0 where
  pub api_endpoint : String
  pub chain : Option OnChainConfig

-- `NewThingsIXGatewayRegistry`
unfoldable pub new_registry : Bool → Option SyncConfig → Option Registry
new_registry parses none = none
new_registry parses (some cfg) = elim cfg.chain [
  | some chain ↦ elim (build_on_chain_syncer parses chain) [
    | none ↦ none
    | some s ↦ some (on_chain s)
  ]
  | none ↦ if str_eq cfg.api_endpoint "" then none else some (thingsix_api cfg.api_endpoint)
]

module _ (texts : Texts) where
  -- A gateway without a gain has no details yet.
  unfoldable pub entry_of_chain : ChainGateway → RegistryEntry
  entry_of_chain g = record {
    owner = g.owner;
    version = g.version;
    details =
        if g.antenna_gain == 0
        then none
        else some (record {
          antenna_gain = some (texts.gain_text g.antenna_gain);
          band = some (texts.from_blockchain g.frequency_plan);
          location = some (texts.cell_text g.location);
          altitude = some (g.altitude * 3 % 2 ^ 16);
        });
  }

  -- The part of `GatewayDetails` from the head block on
  unfoldable pub confirmed : SmartContract → ChainNode → ℕ → ℕ → Option RegistryEntry
  confirmed s node id head =
      if ltb head s.confirmations then none else elim (node.gateways (head - s.confirmations) id) [
        | none ↦ none
        | some g ↦ some (entry_of_chain g)
      ]

  -- `GatewayDetails`; `none` is an error.
  unfoldable pub chain_details : SmartContract → ChainNode → ℕ → Option RegistryEntry
  chain_details s node id =
      if node.dials
      then if node.binds
        then elim node.head [ none ↦ none | some head ↦ confirmed s node id head ]
        else none
      else none

  confirmed_entry :
      (s : SmartContract) (node : ChainNode) (id head : ℕ) (e : RegistryEntry)
      → confirmed s node id head ≡ some e
      → (block : ℕ) × (head ≡ block + s.confirmations)
        × (g : ChainGateway) × (node.gateways block id ≡ some g)
        × (e ≡ entry_of_chain g)
  unfolding confirmed
  confirmed_entry s node id head e h = elim (Bool-cases (ltb head s.confirmations)) [
    | inl l ↦ let h' = rw (l, confirmed) at h in cc h'
    | inr l ↦ elim (Option-cases (node.gateways (head - s.confirmations) id)) [
      | inl n ↦ let h' = rw (l, n, confirmed) at h in cc h'
      | inr (g, n) ↦
          let h' = rw (l, n, confirmed) at h in
          (head - s.confirmations, ground arith, g, n, sym (some-injective _ _ h'))
    ]
  ]

  -- `GatewayDetails` of the contract returns an entry exactly if the node is reached, has a head block
  -- that is at least the confirmations high, and the contract answers for the block that lies exactly
  -- the confirmations below the head; the entry is what the contract answers.
  pub chain_details_iff :
      (s : SmartContract) (node : ChainNode) (id : ℕ) (e : RegistryEntry)
      → (chain_details s node id ≡ some e) ↔ (
          (node.dials ≡ true)
          × (node.binds ≡ true)
          × (block : ℕ) × (node.head ≡ some (block + s.confirmations))
          × (g : ChainGateway) × (node.gateways block id ≡ some g)
          × (e ≡ entry_of_chain g))
  unfolding chain_details confirmed
  chain_details_iff s node id e = (
    λ h. elim (Bool-cases node.dials) [
      | inr d ↦ let h' = rw (d, chain_details) at h in cc h'
      | inl d ↦ elim (Bool-cases node.binds) [
        | inr b ↦ let h' = rw (d, b, chain_details) at h in cc h'
        | inl b ↦ elim (Option-cases node.head) [
          | inl n ↦ let h' = rw (d, b, n, chain_details) at h in cc h'
          | inr (head, n) ↦
              let (block, at, g, c, same) =
                confirmed_entry s node id head e (rw (d, b, n, chain_details) at h) in
              (d, b, block, n ∙ ap some at, g, c, same)
        ]
      ]
    ],
    λ (d, b, block, n, g, c, same).
        let high : ltb (block + s.confirmations) s.confirmations ≡ false = ground arith in
        let below : block + s.confirmations - s.confirmations ≡ block = omega arith in
        rw (chain_details, d, b, n, confirmed, high, below, c, same) refl,
  )
