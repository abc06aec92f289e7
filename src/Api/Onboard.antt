-- ===== src/Api/Onboard.antt =====
-- What a reply to an onboard request says, and the parts of the onboard handlers that it rests on
-- (forwarder/api.go).
use packet_handling.Base.{
  ℕ, ◌≡◌, refl, ap, ◌∙◌, Bool, true, false, Option, none, some, List, ◌==◌, if◌then◌else◌, arith,
  Bool-cases, Option-cases, ◌⊎◌, inl, inr, is_some, eq_self,
}
use packet_handling.GatewayStore.{Gateway, Error, Result, ok, err}
use packet_handling.GatewayStore.Interface.{Store, IsStore}
use packet_handling.Api.{
  solidity, Externals, Service, OnboardRequest, OnboardReply, Post, reply, Outside,
  sign_plain_batch_onboard_message, push, onboard_reply, if_pushed, sign_and_push, is_not_found,
  add_new, find_or_add, contains_by_local_id, status_of, onboard_with, onboard_gateway_message,
}

pub Result-cases {ℓ} :
    {A : Type ℓ} (r : Result A) → ((e : Error) × (r ≡ err e)) ⊎ ((a : A) × (r ≡ ok a))
Result-cases (err e) = inl (e, refl)
Result-cases (ok a) = inr (a, refl)

module _ {S IO : Type 0} (st : Store S IO) (is_st : IsStore st) where
  -- A store has all gateways that another one has, as they are.
  abbrev pub Keeps : S → S → Type 0
  Keeps s s' = (j : ℕ) (g : Gateway) → st.by_local_id j s ≡ ok g → st.by_local_id j s' ≡ ok g

  pub add_new-Keeps :
      (out : Outside IO) (id : ℕ) (s : S) (e : Error)
      → st.by_local_id id s ≡ err e
      → Keeps s (add_new st out id s).1
  unfolding add_new
  add_new-Keeps out id s e n j g h = elim (Option-cases out.generated) [
    | inl k ↦ rw (k, add_new) h
    | inr (key, k) ↦ elim (Result-cases (st.add out.io id key s).0) [
      | inl (f, r) ↦ rw (k, add_new) (is_st.refused out.io id key s f j r ∙ h)
      | inr (gw, a) ↦ rw (k, add_new) (ground (arith, is_st.filed out.io id key s gw j a, h, n))
    ]
  ]

  pub add_new-some :
      (out : Outside IO) (id : ℕ) (s : S) (gw : Gateway)
      → (add_new st out id s).0 ≡ some gw
      → (st.by_local_id id (add_new st out id s).1 ≡ ok gw) × (gw.local_id ≡ id) × (gw.owner ≡ none)
  unfolding add_new
  add_new-some out id s gw h = elim (Option-cases out.generated) [
    | inl k ↦ let h' = rw (k, add_new) at h in cc h'
    | inr (key, k) ↦
        let h' = rw (k, add_new) at h in
        elim (Result-cases (st.add out.io id key s).0) [
          | inl (f, r) ↦ let h'' = rw r at h' in cc h''
          | inr (g, a) ↦
              let same : g ≡ gw = cc (rw a at h') in
              let b : (st.add out.io id key s).0 ≡ ok gw = a ∙ ap ok same in
              let new = is_st.added out.io id key s gw b in
              rw (k, add_new)
                (is_st.filed out.io id key s gw id b ∙ rw (eq_self id) refl, new.0, new.2)
        ]
  ]

  pub find_or_add-Keeps :
      (out : Outside IO) (id : ℕ) (s : S) → Keeps s (find_or_add st out id s).1.1
  unfolding find_or_add
  find_or_add-Keeps out id s j g h = elim (Result-cases (st.by_local_id id s)) [
    | inr (gw, n) ↦ rw (n, find_or_add) h
    | inl (e, n) ↦ elim (Bool-cases (is_not_found e)) [
      | inl y ↦ rw (n, find_or_add, y) (add_new-Keeps out id s e n j g h)
      | inr m ↦ rw (n, find_or_add, m) h
    ]
  ]

  -- The gateway that a handler works with is the one that the store has then; the status is 200 if
  -- it had it before, and 201 if it is new.
  pub find_or_add-some :
      (out : Outside IO) (id : ℕ) (s : S) (gw : Gateway)
      → (find_or_add st out id s).1.0 ≡ some gw
      → (st.by_local_id id (find_or_add st out id s).1.1 ≡ ok gw)
        × ((find_or_add st out id s).0 ≡ (if contains_by_local_id st id s then 200 else 201))
  unfolding find_or_add
  find_or_add-some out id s gw h = elim (Result-cases (st.by_local_id id s)) [
    | inr (g, n) ↦
        let h' = rw (n, find_or_add) at h in
        let same : g ≡ gw = cc h' in
        rw (n, find_or_add) (n ∙ ap ok same, rw (n, contains_by_local_id) refl)
    | inl (e, n) ↦ elim (Bool-cases (is_not_found e)) [
      | inl y ↦
          let h' = rw (n, find_or_add, y) at h in
          rw (n, find_or_add, y)
            ((add_new-some out id s gw h').0, rw (n, contains_by_local_id) refl)
      | inr m ↦ let h' = rw (n, find_or_add, m) at h in cc h'
    ]
  ]

-- The bytes are the signature that the gateway's key gives to the hash of the packed message (chain,
-- onboarder, version 0, the gateway's ID and address, owner), with its last byte for Solidity.
pub record IsSignature (ext : Externals) (chain contract owner : ℕ) (gw : Gateway) (bytes : List ℕ)
    : Type 0 where
  pub packed : List ℕ
  pub signature : List ℕ
  pub packs :
      ext.pack chain contract 0 gw.thingsix_id (ext.pubkey_to_address gw.private_key) owner
      ≡ some packed
  pub signs : ext.sign (ext.keccak256 packed) gw.private_key ≡ some signature
  pub written : bytes ≡ solidity signature

sign-IsSignature :
    (ext : Externals) (chain contract owner : ℕ) (gw : Gateway) (bytes : List ℕ)
    → sign_plain_batch_onboard_message ext chain contract owner 0 gw ≡ some bytes
    → IsSignature ext chain contract owner gw bytes
unfolding sign_plain_batch_onboard_message
sign-IsSignature ext chain contract owner gw bytes h =
    elim (Option-cases
      (ext.pack chain contract 0 gw.thingsix_id (ext.pubkey_to_address gw.private_key) owner)) [
        | inl n ↦ let h' = rw (n, sign_plain_batch_onboard_message) at h in cc h'
        | inr (packed, n) ↦ elim (Option-cases (ext.sign (ext.keccak256 packed) gw.private_key)) [
          | inl m ↦ let h' = rw (n, sign_plain_batch_onboard_message, m) at h in cc h'
          | inr (signature, m) ↦
              let h' = rw (n, sign_plain_batch_onboard_message, m) at h in
              record {
                packed = packed;
                signature = signature;
                packs = n;
                signs = m;
                written = ground (arith, h');
              }
        ]
      ]

module _ (ext : Externals) (svc : Service) where
  -- A reply carries the two signatures by the key of its gateway.
  pub record Signs (owner : ℕ) (gw : Gateway) (r : OnboardReply) : Type 0 where
    pub gateway_id : r.gateway_id ≡ gw.thingsix_id
    pub local_id : r.local_id ≡ gw.local_id
    pub owner_id : r.owner ≡ owner
    pub batch : IsSignature ext svc.chain_id svc.batch_onboarder owner gw r.onboard_signature
    pub early :
        IsSignature ext svc.chain_id svc.early_adopter_onboarder owner gw r.early_adopter_signature

  if_pushed-some :
      (p : List Post × Bool) (r r' : OnboardReply) → (if_pushed ext svc p r).1 ≡ some r' → r ≡ r'
  if_pushed-some (posts, true) r r' h = cc
  if_pushed-some (posts, false) r r' h = cc

  pub sign_and_push-Signs :
      (pushes first second : Bool) (owner : ℕ) (gw : Gateway) (r : OnboardReply)
      → (sign_and_push ext svc pushes first second owner gw).1 ≡ some r
      → Signs owner gw r
  unfolding sign_and_push
  sign_and_push-Signs pushes first second owner gw r h =
      elim (Option-cases
        (sign_plain_batch_onboard_message ext svc.chain_id svc.batch_onboarder owner 0 gw)) [
          | inl n ↦ let h' = rw (n, sign_and_push) at h in cc h'
          | inr (batch, n) ↦
              elim (Option-cases (
                sign_plain_batch_onboard_message ext svc.chain_id svc.early_adopter_onboarder owner
                  0 gw)) [
                    | inl m ↦ let h' = rw (n, sign_and_push, m) at h in cc h'
                    | inr (early, m) ↦
                        let h' = rw (n, sign_and_push, m) at h in
                        let e =
                          if_pushed-some (push ext svc pushes first second owner gw batch early)
                            (onboard_reply ext svc owner gw batch early) r h' in
                        record {
                          gateway_id = ground (arith, e);
                          local_id = ground (arith, e);
                          owner_id = ground (arith, e);
                          batch =
                              sign-IsSignature ext svc.chain_id svc.batch_onboarder owner gw
                                r.onboard_signature
                                (n ∙ ap (λ (x : OnboardReply). some x.onboard_signature) e);
                          early =
                              sign-IsSignature ext svc.chain_id svc.early_adopter_onboarder owner gw
                                r.early_adopter_signature
                                (m ∙ ap (λ (x : OnboardReply). some x.early_adopter_signature) e);
                        }
                  ]
        ]

  module _ {S IO : Type 0} (st : Store S IO) (is_st : IsStore st) where
    no_owner : (o : Option ℕ) → is_some o ≡ false → o ≡ none
    no_owner none h = refl
    no_owner (some owner) h = cc

    status_of-reply :
        (code c : ℕ) (p : List Post × Option OnboardReply) (r : OnboardReply)
        → (status_of st ext svc code p).0 ≡ reply c r
        → (p.1 ≡ some r) × (c ≡ code)
    status_of-reply code c (posts, none) r h = cc
    status_of-reply code c (posts, some r') r h = (cc, cc)

    onboard_with-reply :
        (out : Outside IO) (req : OnboardRequest) (code : ℕ) (found : Option Gateway) (s : S)
        (c : ℕ) (r : OnboardReply)
        → (onboard_with st ext svc out req (code, (found, s))).0 ≡ reply c r
        → (gw : Gateway) × (found ≡ some gw) × (gw.owner ≡ none) × (c ≡ code) × Signs req.owner gw r
    unfolding onboard_with
    onboard_with-reply out req code none s c r h = cc
    onboard_with-reply out req code (some gw) s c r h = elim (Bool-cases (is_some gw.owner)) [
      | inl y ↦ let h' = rw y at h in cc h'
      | inr n ↦
          let h' = rw n at h in
          let (e, same) =
            status_of-reply code c
              (sign_and_push ext svc req.push_to_thingsix out.first_post out.second_post req.owner
                gw)
              r h' in
          (
            gw,
            refl,
            no_owner gw.owner n,
            same,
            sign_and_push-Signs req.push_to_thingsix out.first_post out.second_post req.owner gw r
                e,
          )
    ]

    pub onboard_with_state :
        (out : Outside IO) (req : OnboardRequest) (f : ℕ × (Option Gateway × S))
        → (onboard_with st ext svc out req f).2 ≡ f.1.1
    unfolding onboard_with
    onboard_with_state out req (code, (none, s)) = refl
    onboard_with_state out req (code, (some gw, s)) = ground arith

    -- A reply to an onboard request is about the gateway that the store has under the local ID after
    -- the request, one that is not onboarded: it carries the ID of that gateway and the signatures of
    -- its key for the owner and each of the two onboarders. The status is 200 if the store had the
    -- local ID before, and 201 if not.
    pub onboard_gateway_message-reply :
        (out : Outside IO) (req : OnboardRequest) (s : S) (code : ℕ) (r : OnboardReply)
        → (onboard_gateway_message st ext svc out (some req) s).0 ≡ reply code r
        → (gw : Gateway) × (st.by_local_id req.local_id
              (onboard_gateway_message st ext svc out (some req) s).2
            ≡ ok gw)
          × (gw.owner ≡ none)
          × Signs req.owner gw r
          × (code ≡ (if contains_by_local_id st req.local_id s then 200 else 201))
    unfolding onboard_gateway_message
    onboard_gateway_message-reply out req s code r h = elim (Bool-cases (req.local_id == 0)) [
      | inl y ↦ let h' = rw (y, onboard_gateway_message) at h in cc h'
      | inr m ↦ elim (Bool-cases (req.owner == 0)) [
        | inl y ↦ let h' = rw (m, onboard_gateway_message, y) at h in cc h'
        | inr k ↦
            let f = find_or_add st out req.local_id s in
            let h' = rw (m, onboard_gateway_message, k) at h in
            let (gw, found, free, same, signs) =
              onboard_with-reply out req f.0 f.1.0 f.1.1 code r h' in
            let (filed, status) = find_or_add-some st is_st out req.local_id s gw found in
            (
              gw,
              rw (m, onboard_gateway_message, k) (rw (onboard_with_state out req f) filed),
              free,
              signs,
              same ∙ status,
            )
      ]
    ]
