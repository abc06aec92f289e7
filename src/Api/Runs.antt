-- ===== src/Api/Runs.antt =====
-- A run of the API's handlers that add gateways (forwarder/api.go) over one store.
use packet_handling.Base.{
  ℕ, ◌≡◌, refl, Option, none, some, List, [], ◌∷◌, ◌==◌, Bool-cases, inl, inr,
}
use packet_handling.GatewayStore.{Gateway, ok}
use packet_handling.GatewayStore.Interface.{Store, IsStore}
use packet_handling.Api.{
  Externals, Service, OnboardRequest, ImportRequest, Outside, RecordedAnswer, recording_disabled,
  recording_failed, recorded, find_or_add, gateway_reply, add_gateway, onboard_gateway_message,
  import_gateways,
}
use packet_handling.Api.Onboard.{Keeps, find_or_add-Keeps, onboard_with_state}
use packet_handling.Api.Import.{import_from-Keeps}

-- A request to the handlers that add gateways to the store, with what the outside gives. SyncGateway, which
-- replaces the registry's data of a gateway that is there, is left out.
pub data Call (IO : Type 0) : Type 0 where
  add : Outside IO → Option ℕ → Call IO
  onboard : Outside IO → Option OnboardRequest → Call IO
  import_all : (ℕ → Outside IO) → Option ImportRequest → RecordedAnswer → Call IO

module _ (ext : Externals) (svc : Service) {S IO : Type 0} (st : Store S IO) where
  unfoldable pub handle : Call IO → S → S
  handle (add out id) s = (add_gateway st out id s).1
  handle (onboard out req) s = (onboard_gateway_message st ext svc out req s).2
  handle (import_all outs req answer) s = (import_gateways st ext svc outs req answer s).2

  unfoldable pub run_api : List (Call IO) → S → S
  run_api [] s = s
  run_api (c ∷ cs) s = run_api cs (handle c s)

  module _ (is_st : IsStore st) where
    gateway_reply_state : (p : ℕ × (Option Gateway × S)) → (gateway_reply st p).1 ≡ p.1.1
    gateway_reply_state (code, (none, s)) = refl
    gateway_reply_state (code, (some gw, s)) = refl

    handle-Keeps : (c : Call IO) (s : S) → Keeps st is_st s (handle c s)
    unfolding handle add_gateway onboard_gateway_message import_gateways
    handle-Keeps (add out none) s j g h = h
    handle-Keeps (add out (some id)) s j g h = elim (Bool-cases (id == 0)) [
      | inl y ↦ rw (y, handle, add_gateway) h
      | inr n ↦
          rw (n, handle, add_gateway)
            (rw (gateway_reply_state (find_or_add st out id s))
              (find_or_add-Keeps st is_st out id s j g h))
    ]
    handle-Keeps (onboard out none) s j g h = h
    handle-Keeps (onboard out (some req)) s j g h = elim (Bool-cases (req.local_id == 0)) [
      | inl y ↦ rw (y, handle, onboard_gateway_message) h
      | inr n ↦ elim (Bool-cases (req.owner == 0)) [
        | inl y ↦ rw (n, handle, onboard_gateway_message, y) h
        | inr m ↦
            rw (n, handle, onboard_gateway_message, m)
              (rw (onboard_with_state ext svc st is_st out req (find_or_add st out req.local_id s))
                (find_or_add-Keeps st is_st out req.local_id s j g h))
      ]
    ]
    handle-Keeps (import_all outs none answer) s j g h = h
    handle-Keeps (import_all outs (some req) recording_disabled) s j g h =
        elim (Bool-cases (req.owner == 0)) [
          | inl y ↦ rw (y, handle, import_gateways) h
          | inr n ↦ rw (n, handle, import_gateways) h
        ]
    handle-Keeps (import_all outs (some req) recording_failed) s j g h =
        elim (Bool-cases (req.owner == 0)) [
          | inl y ↦ rw (y, handle, import_gateways) h
          | inr n ↦ rw (n, handle, import_gateways) h
        ]
    handle-Keeps (import_all outs (some req) (recorded rs)) s j g h =
        elim (Bool-cases (req.owner == 0)) [
          | inl y ↦ rw (y, handle, import_gateways) h
          | inr n ↦
              rw (n, handle, import_gateways)
                (import_from-Keeps ext svc st is_st outs req rs 200 [] [] s j g h)
        ]

    -- Additions, onboard requests and imports change no gateway that the store has: over every run of
    -- them, whether they succeed, a local ID keeps its gateway, with the key, the owner, the version and the
    -- details it had. SyncGateway, which replaces the last three, is not among these calls.
    pub run_api-keeps :
        (cs : List (Call IO)) (s : S) (id : ℕ) (gw : Gateway)
        → st.by_local_id id s ≡ ok gw
        → st.by_local_id id (run_api cs s) ≡ ok gw
    unfolding run_api
    run_api-keeps [] s id gw h = h
    run_api-keeps (c ∷ cs) s id gw h =
        run_api-keeps cs (handle c s) id gw (handle-Keeps c s id gw h)
