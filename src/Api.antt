-- ===== src/Api.antt =====
-- The HTTP API of the forwarder: the handlers of forwarder/api.go over any gateway store, and
-- SignPlainBatchOnboardMessage of gateway/onboard.go. A request is what its JSON decodes to, a
-- reply its status and its value; an error's text is left out.
pub mod Onboard
pub mod Import
pub mod Runs
mod Tests
use packet_handling.Base.{
  ℕ, ◌+◌, ◌%◌, String, Bool, true, false, not, Option, none, some, List, [], ◌∷◌, ◌++◌, ◌==◌, leb,
  if◌then◌else◌, take, drop, is_some, select,
}
use packet_handling.GoMap.{Map}
use packet_handling.GatewayStore.{Gateway, Error, not_found, Result, ok, err, RegistryEntry}
use packet_handling.GatewayStore.Interface.{Store}
use packet_handling.UnknownGateways.{Recorded}

-- The ABI packing, Keccak256, the signature and the address of go-ethereum.
pub record Externals : Type 0 where
  pub pack : ℕ → ℕ → ℕ → ℕ → ℕ → ℕ → Option (List ℕ)
  pub keccak256 : List ℕ → ℕ
  pub sign : ℕ → ℕ → Option (List ℕ)
  pub pubkey_to_address : ℕ → ℕ

-- `APIService` without the store and the recorder
pub record Service : Type 0 where
  pub chain_id : ℕ
  pub batch_onboarder : ℕ
  pub early_adopter_onboarder : ℕ

pub record OnboardRequest : Type 0 where
  pub local_id : ℕ
  pub owner : ℕ
  pub push_to_thingsix : Bool

pub record ImportRequest : Type 0 where
  pub owner : ℕ
  pub push_to_thingsix : Bool

-- `OnboardGatewayReply`
pub record OnboardReply : Type 0 where
  pub owner : ℕ
  pub address : ℕ
  pub chain_id : ℕ
  pub gateway_id : ℕ
  pub onboard_signature : List ℕ
  pub early_adopter_signature : List ℕ
  pub local_id : ℕ
  pub network_id : ℕ
  pub version : ℕ
  pub onboarder : ℕ

-- A message that is posted to ThingsIX
pub record Post : Type 0 where
  pub owner : ℕ
  pub onboarder : ℕ
  pub gateway_id : ℕ
  pub signature : List ℕ
  pub local_id : ℕ

pub data Reply {ℓ} (A : Type ℓ) : Type ℓ where
  failure : ℕ → Reply A
  reply : ℕ → A → Reply A

-- What the outside gives in the work on one gateway: a new key, the store's answer to `Add`, and for
-- each of the two posts whether the request comes through.
pub record Outside (IO : Type 0) : Type 0 where
  pub generated : Option ℕ
  pub io : IO
  pub first_post : Bool
  pub second_post : Bool

-- `sign[64] += 27`, on the 65 bytes of a signature
abbrev pub raise_v : List ℕ → List ℕ
raise_v [] = []
raise_v (v ∷ rest) = ((v + 27) % 256) ∷ rest

abbrev pub solidity : List ℕ → List ℕ
solidity signature = take 64 signature ++ raise_v (drop 64 signature)

module _ (ext : Externals) where
  -- `SignPlainBatchOnboardMessage`
  unfoldable pub sign_plain_batch_onboard_message : ℕ → ℕ → ℕ → ℕ → Gateway → Option (List ℕ)
  sign_plain_batch_onboard_message chain_id contract owner version gw =
      elim (ext.pack chain_id contract version gw.thingsix_id (ext.pubkey_to_address gw.private_key)
        owner) [
          | none ↦ none
          | some packed ↦ elim (ext.sign (ext.keccak256 packed) gw.private_key) [
            | none ↦ none
            | some signature ↦ some (solidity signature)
          ]
        ]

  module _ (svc : Service) where
    -- The pushes to ThingsIX: the messages sent, and whether both requests came through.
    unfoldable pub push : Bool → Bool → Bool → ℕ → Gateway → List ℕ → List ℕ → List Post × Bool
    push false first second owner gw batch early = ([], true)
    push true first second owner gw batch early =
        let one : Post = record {
          owner = owner;
          onboarder = svc.batch_onboarder;
          gateway_id = gw.thingsix_id;
          signature = batch;
          local_id = gw.local_id;
        } in
        let two : Post = record one {
          onboarder = svc.early_adopter_onboarder;
          signature = early;
        } in
        if first then (one ∷ two ∷ [], second) else (one ∷ [], false)

    abbrev pub onboard_reply : ℕ → Gateway → List ℕ → List ℕ → OnboardReply
    onboard_reply owner gw batch early = record {
      owner = owner;
      address = ext.pubkey_to_address gw.private_key;
      chain_id = svc.chain_id;
      gateway_id = gw.thingsix_id;
      onboard_signature = batch;
      early_adopter_signature = early;
      local_id = gw.local_id;
      network_id = gw.network_id;
      version = 0;
      onboarder = svc.batch_onboarder;
    }

    abbrev pub if_pushed : List Post × Bool → OnboardReply → List Post × Option OnboardReply
    if_pushed (posts, true) r = (posts, some r)
    if_pushed (posts, false) r = (posts, none)

    -- What both handlers do with a gateway of the store: two signatures and the pushes; `none` is the
    -- status 500.
    unfoldable pub sign_and_push :
        Bool → Bool → Bool → ℕ → Gateway → List Post × Option OnboardReply
    sign_and_push pushes first second owner gw =
        elim (sign_plain_batch_onboard_message svc.chain_id svc.batch_onboarder owner 0 gw) [
          | none ↦ ([], none)
          | some batch ↦
              elim (sign_plain_batch_onboard_message svc.chain_id svc.early_adopter_onboarder owner
                0 gw) [
                  | none ↦ ([], none)
                  | some early ↦
                      if_pushed (push pushes first second owner gw batch early)
                        (onboard_reply owner gw batch early)
                ]
        ]

-- `errors.Is(err, gateway.ErrNotFound)`
abbrev pub is_not_found : Error → Bool
is_not_found not_found = true
is_not_found _ = false

-- What `Recorded` of the recorder of unknown gateways gives.
pub data RecordedAnswer : Type 0 where
  recording_disabled recording_failed : RecordedAnswer
  recorded : List Recorded → RecordedAnswer

abbrev pub gateway_or_none : Result Gateway → Option Gateway
gateway_or_none (ok gw) = some gw
gateway_or_none (err e) = none

module _ {S IO : Type 0} (st : Store S IO) where
  -- `GenerateNewGateway`, then `Add` with its key
  unfoldable pub add_new : Outside IO → ℕ → S → Option Gateway × S
  add_new out local_id s = elim out.generated [
    | none ↦ (none, s)
    | some key ↦ let r = st.add out.io local_id key s in (gateway_or_none r.0, r.1)
  ]

  -- The gateway of the store, or a new one, with the status that is meant for the reply; no gateway is
  -- the status 500.
  unfoldable pub find_or_add : Outside IO → ℕ → S → ℕ × (Option Gateway × S)
  find_or_add out local_id s = elim (st.by_local_id local_id s) [
    | ok gw ↦ (200, (some gw, s))
    | err e ↦ if is_not_found e then (201, add_new out local_id s) else (500, (none, s))
  ]

  abbrev pub contains_by_local_id : ℕ → S → Bool
  contains_by_local_id id s = elim (st.by_local_id id s) [ ok gw ↦ true | err e ↦ false ]

  -- `AddGateway`; the request's body may not decode.
  abbrev pub gateway_reply : ℕ × (Option Gateway × S) → Reply Gateway × S
  gateway_reply (code, (none, s)) = (failure 500, s)
  gateway_reply (code, (some gw, s)) = (reply code gw, s)

  unfoldable pub add_gateway : Outside IO → Option ℕ → S → Reply Gateway × S
  add_gateway out none s = (failure 400, s)
  add_gateway out (some local_id) s =
      if local_id == 0 then (failure 400, s) else gateway_reply (find_or_add out local_id s)

  -- `Gateway`, on the local ID of the path where it parses
  unfoldable pub gateway : Option ℕ → S → Reply Gateway
  gateway none s = failure 400
  gateway (some local_id) s = elim (st.by_local_id local_id s) [
    | ok gw ↦ reply 200 gw
    | err e ↦ if is_not_found e then failure 404 else failure 500
  ]

  -- `SyncGateway`, with the store's forced sync
  unfoldable pub sync_gateway : (ℕ → S → Result Gateway × S) → Option ℕ → S → Reply Gateway × S
  sync_gateway sync none s = (failure 400, s)
  sync_gateway sync (some local_id) s =
      let r = sync local_id s in
      (
        elim r.0 [
          | ok gw ↦ reply 200 gw
          | err e ↦ if is_not_found e then failure 404 else failure 500
        ],
        r.1,
      )

  -- `ListUnknownGateways`
  unfoldable pub list_unknown_gateways : RecordedAnswer → S → Reply (List Recorded)
  list_unknown_gateways recording_disabled s = failure 503
  list_unknown_gateways recording_failed s = failure 500
  list_unknown_gateways (recorded rs) s =
      reply 200 (select (λ (r : Recorded). not (contains_by_local_id r.local_id s)) rs)

  module _ (ext : Externals) (svc : Service) where
    abbrev pub status_of : ℕ → List Post × Option OnboardReply → Reply OnboardReply × List Post
    status_of code (posts, none) = (failure 500, posts)
    status_of code (posts, some r) = (reply code r, posts)

    -- The rest of `OnboardGatewayMessage` once there is a gateway
    unfoldable pub onboard_with :
        Outside IO → OnboardRequest → ℕ × (Option Gateway × S) → Reply OnboardReply × List Post × S
    onboard_with out req (code, (none, s)) = (failure 500, [], s)
    onboard_with out req (code, (some gw, s)) =
        if is_some gw.owner
        then (failure 400, [], s)
        else let r = status_of code (
            sign_and_push ext svc req.push_to_thingsix out.first_post out.second_post req.owner
              gw) in
          (r.0, r.1, s)

    -- `OnboardGatewayMessage`
    unfoldable pub onboard_gateway_message :
        Outside IO → Option OnboardRequest → S → Reply OnboardReply × List Post × S
    onboard_gateway_message out none s = (failure 400, [], s)
    onboard_gateway_message out (some req) s =
        if req.local_id == 0
        then (failure 400, [], s)
        else if req.owner == 0
        then (failure 400, [], s)
        else onboard_with out req (find_or_add out req.local_id s)

    -- One recorded gateway that the store does not have
    abbrev pub import_with :
        Outside IO → ImportRequest → Option Gateway × S → Option OnboardReply × List Post × S
    import_with out req (none, s) = (none, [], s)
    import_with out req (some gw, s) =
        let r =
          sign_and_push ext svc req.push_to_thingsix out.first_post out.second_post req.owner gw in
        (r.1, r.0, s)

    unfoldable pub import_one :
        Outside IO → ImportRequest → ℕ → S → Option OnboardReply × List Post × S
    import_one out req local_id s = import_with out req (add_new out local_id s)

    -- The loop of `ImportGateways`: the status and the replies so far, and the posts; the first failure
    -- ends it.
    unfoldable pub import_from :
        (ℕ → Outside IO)
        → ImportRequest
        → List Recorded
        → ℕ
        → List OnboardReply
        → List Post
        → S
        → Reply (List OnboardReply) × List Post × S
    import_from outs req [] code replies posts s = (reply code replies, posts, s)
    import_from outs req (r ∷ rs) code replies posts s = elim (contains_by_local_id r.local_id s) [
      | true ↦ import_from outs req rs code replies posts s
      | false ↦
          let one = import_one (outs r.local_id) req r.local_id s in
          elim one.0 [
            | none ↦ (failure 500, posts ++ one.1, one.2)
            | some o ↦ import_from outs req rs 201 (replies ++ o ∷ []) (posts ++ one.1) one.2
          ]
    ]

    -- `ImportGateways`; what the outside gives for a gateway goes by its local ID.
    unfoldable pub import_gateways :
        (ℕ → Outside IO)
        → Option ImportRequest
        → RecordedAnswer
        → S
        → Reply (List OnboardReply) × List Post × S
    import_gateways outs none answer s = (failure 400, [], s)
    import_gateways outs (some req) answer s =
        if req.owner == 0 then (failure 400, [], s) else elim answer [
          | recording_disabled ↦ (failure 503, [], s)
          | recording_failed ↦ (failure 500, [], s)
          | recorded rs ↦ import_from outs req rs 200 [] [] s
        ]

-- `sort.Slice` by the local ID
abbrev pub insert_sorted : Gateway → List Gateway → List Gateway
insert_sorted gw [] = gw ∷ []
insert_sorted gw (g ∷ gs) =
    if leb gw.local_id g.local_id then gw ∷ g ∷ gs else g ∷ insert_sorted gw gs

abbrev pub sort : List Gateway → List Gateway
sort [] = []
sort (g ∷ gs) = insert_sorted g (sort gs)

-- `Onboarded`
abbrev pub onboarded : Gateway → Bool
onboarded gw = is_some gw.owner

-- `ListGateways`, of the gateways that `Range` collects: the pending and the onboarded ones
unfoldable pub list_gateways : List Gateway → List Gateway × List Gateway
list_gateways gws = (sort (select (λ gw. not (onboarded gw)) gws), sort (select onboarded gws))
