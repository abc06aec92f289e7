-- ===== src/Api/Import.antt =====
-- The import of recorded gateways (`ImportGateways` and `ListUnknownGateways` of forwarder/api.go).
use packet_handling.Base.{
  ℕ, ◌≡◌, refl, ap, sym, subst, true, false, not, Option, none, some, List, [], ◌∷◌, ◌++◌, ◌==◌,
  arith, Bool-cases, Option-cases, inl, inr, select,
}
use packet_handling.GatewayStore.{Gateway, ok}
use packet_handling.GatewayStore.Interface.{Store, IsStore}
use packet_handling.UnknownGateways.{Recorded}
use packet_handling.Api.{
  Externals, Service, ImportRequest, OnboardReply, Post, Reply, reply, Outside, recorded, add_new,
  contains_by_local_id, import_with, import_one, import_from, import_gateways,
  list_unknown_gateways,
}
use packet_handling.Api.Onboard.{
  Result-cases, Keeps, add_new-Keeps, add_new-some, Signs, sign_and_push-Signs,
}

module _ (ext : Externals) (svc : Service) {S IO : Type 0} (st : Store S IO)
    (is_st : IsStore st) where
  -- Each reply is signed by the gateway that the store has under its local ID.
  abbrev pub AllSigned : ℕ → S → List OnboardReply → Type 0
  AllSigned owner s [] = Unit
  AllSigned owner s (r ∷ rs) =
      ((gw : Gateway) × (st.by_local_id r.local_id s ≡ ok gw) × Signs ext svc owner gw r)
      × AllSigned owner s rs

  AllSigned-Keeps :
      (owner : ℕ) (s s' : S) (rs : List OnboardReply)
      → Keeps st is_st s s'
      → AllSigned owner s rs
      → AllSigned owner s' rs
  AllSigned-Keeps owner s s' [] k a = tt
  AllSigned-Keeps owner s s' (r ∷ rs) k a =
      ((a.0.0, k r.local_id a.0.0 a.0.1, a.0.2), AllSigned-Keeps owner s s' rs k a.1)

  AllSigned-append :
      (owner : ℕ) (s : S) (rs : List OnboardReply) (r : OnboardReply) (gw : Gateway)
      → AllSigned owner s rs
      → st.by_local_id r.local_id s ≡ ok gw
      → Signs ext svc owner gw r
      → AllSigned owner s (rs ++ r ∷ [])
  AllSigned-append owner s [] r gw a f g = ((gw, f, g), tt)
  AllSigned-append owner s (x ∷ rs) r gw a f g = (a.0, AllSigned-append owner s rs r gw a.1 f g)

  import_with_state :
      (out : Outside IO) (req : ImportRequest) (p : Option Gateway × S)
      → (import_with st ext svc out req p).2 ≡ p.1
  import_with_state out req (none, s) = refl
  import_with_state out req (some gw, s) = refl

  import_with-some :
      (out : Outside IO) (req : ImportRequest) (p : Option Gateway × S) (o : OnboardReply)
      → (import_with st ext svc out req p).0 ≡ some o
      → (gw : Gateway) × (p.0 ≡ some gw) × Signs ext svc req.owner gw o
  import_with-some out req (none, s) o h = cc
  import_with-some out req (some gw, s) o h = (
    gw,
    refl,
    sign_and_push-Signs ext svc req.push_to_thingsix out.first_post out.second_post req.owner gw o
        h,
  )

  import_one-Keeps :
      (out : Outside IO) (req : ImportRequest) (id : ℕ) (s : S)
      → contains_by_local_id st id s ≡ false
      → Keeps st is_st s (import_one st ext svc out req id s).2
  unfolding import_one
  import_one-Keeps out req id s n j g h = elim (Result-cases (st.by_local_id id s)) [
    | inr (gw, e) ↦ let n' = rw (e, contains_by_local_id) at n in cc n'
    | inl (x, e) ↦
        rw (import_with_state out req (add_new st out id s))
          (add_new-Keeps st is_st out id s x e j g h)
  ]

  pub import_from-Keeps :
      (outs : ℕ → Outside IO) (req : ImportRequest) (rs : List Recorded) (code : ℕ)
      (replies : List OnboardReply) (posts : List Post) (s : S)
      → Keeps st is_st s (import_from st ext svc outs req rs code replies posts s).2
  unfolding import_from
  import_from-Keeps outs req [] code replies posts s j g h = h
  import_from-Keeps outs req (r ∷ rs) code replies posts s j g h =
      elim (Bool-cases (contains_by_local_id st r.local_id s)) [
        | inl y ↦ rw (y, import_from) (import_from-Keeps outs req rs code replies posts s j g h)
        | inr n ↦
            let one = import_one st ext svc (outs r.local_id) req r.local_id s in
            let k = import_one-Keeps (outs r.local_id) req r.local_id s n j g h in
            elim (Option-cases one.0) [
              | inl m ↦ rw (n, import_from, m) k
              | inr (o, m) ↦
                  rw (n, import_from, m)
                    (import_from-Keeps outs req rs 201 (replies ++ o ∷ []) (posts ++ one.1) one.2 j
                      g k)
            ]
      ]

  import_from-known :
      (outs : ℕ → Outside IO) (req : ImportRequest) (r : Recorded) (rs : List Recorded) (code : ℕ)
      (replies : List OnboardReply) (posts : List Post) (s : S)
      → contains_by_local_id st r.local_id s ≡ true
      → import_from st ext svc outs req (r ∷ rs) code replies posts s
        ≡ import_from st ext svc outs req rs code replies posts s
  unfolding import_from
  import_from-known outs req r rs code replies posts s y = rw (y, import_from) refl

  import_from-new :
      (outs : ℕ → Outside IO) (req : ImportRequest) (r : Recorded) (rs : List Recorded) (code : ℕ)
      (replies : List OnboardReply) (posts : List Post) (s : S) (o : OnboardReply)
      → contains_by_local_id st r.local_id s ≡ false
      → (import_one st ext svc (outs r.local_id) req r.local_id s).0 ≡ some o
      → import_from st ext svc outs req (r ∷ rs) code replies posts s
        ≡ import_from st ext svc outs req rs 201
            (replies ++ o ∷ [])
            (posts ++ (import_one st ext svc (outs r.local_id) req r.local_id s).1)
            (import_one st ext svc (outs r.local_id) req r.local_id s).2
  unfolding import_from
  import_from-new outs req r rs code replies posts s o n m = rw (n, import_from, m) refl

  -- Every gateway of the list is in the store.
  abbrev AllKnown : S → List Recorded → Type 0
  AllKnown s [] = Unit
  AllKnown s (r ∷ rs) = (contains_by_local_id st r.local_id s ≡ true) × AllKnown s rs

  contains-Keeps :
      (id : ℕ) (s s' : S)
      → Keeps st is_st s s'
      → contains_by_local_id st id s ≡ true
      → contains_by_local_id st id s' ≡ true
  contains-Keeps id s s' k h = elim (Result-cases (st.by_local_id id s)) [
    | inl (x, e) ↦ let h' = rw (e, contains_by_local_id) at h in cc h'
    | inr (gw, e) ↦ rw (k id gw e, contains_by_local_id) refl
  ]

  import_from_complete :
      (outs : ℕ → Outside IO) (req : ImportRequest) (rs : List Recorded) (code : ℕ)
      (replies : List OnboardReply) (posts : List Post) (s : S) (c : ℕ) (os : List OnboardReply)
      → AllSigned req.owner s replies
      → (import_from st ext svc outs req rs code replies posts s).0 ≡ reply c os
      → AllKnown (import_from st ext svc outs req rs code replies posts s).2 rs
        × AllSigned req.owner (import_from st ext svc outs req rs code replies posts s).2 os
  unfolding import_from import_one
  import_from_complete outs req [] code replies posts s c os a h =
      (tt, subst (AllSigned req.owner s) (cc h) a)
  import_from_complete outs req (r ∷ rs) code replies posts s c os a h =
      elim (Bool-cases (contains_by_local_id st r.local_id s)) [
        | inl y ↦
            let h' = rw (y, import_from) at h in
            let (known, signed) = import_from_complete outs req rs code replies posts s c os a h' in
            let k =
              contains-Keeps r.local_id s _ (import_from-Keeps outs req rs code replies posts s)
                y in
            subst
              (λ (x : Reply (List OnboardReply) × List Post × S).
                AllKnown x.2 (r ∷ rs) × AllSigned req.owner x.2 os)
              (sym (import_from-known outs req r rs code replies posts s y)) ((k, known), signed)
        | inr n ↦
            let one = import_one st ext svc (outs r.local_id) req r.local_id s in
            elim (Option-cases one.0) [
              | inl m ↦ let h' = rw (n, import_from, m) at h in cc h'
              | inr (o, m) ↦
                  let h' = rw (n, import_from, m) at h in
                  let (gw, found, signs) =
                    import_with-some (outs r.local_id) req
                      (add_new st (outs r.local_id) r.local_id s) o m in
                  let (filed, same, free) =
                    add_new-some st is_st (outs r.local_id) r.local_id s gw found in
                  let at_id : st.by_local_id r.local_id one.2 ≡ ok gw =
                    rw
                      (import_with_state (outs r.local_id) req
                        (add_new st (outs r.local_id) r.local_id s))
                      filed in
                  let at_reply : st.by_local_id o.local_id one.2 ≡ ok gw =
                    rw (signs.local_id, same) at_id in
                  let old =
                    AllSigned-Keeps req.owner s one.2 replies
                      (import_one-Keeps (outs r.local_id) req r.local_id s n) a in
                  let (known, signed) =
                    import_from_complete outs req rs 201 (replies ++ o ∷ []) (posts ++ one.1) one.2
                      c os (AllSigned-append req.owner one.2 replies o gw old at_reply signs) h' in
                  let k =
                    contains-Keeps r.local_id one.2 _
                      (import_from-Keeps outs req rs 201 (replies ++ o ∷ []) (posts ++ one.1) one.2)
                      (rw (at_id, contains_by_local_id) refl) in
                  subst
                    (λ (x : Reply (List OnboardReply) × List Post × S).
                      AllKnown x.2 (r ∷ rs) × AllSigned req.owner x.2 os)
                    (sym (import_from-new outs req r rs code replies posts s o n m))
                    ((k, known), signed)
            ]
      ]

  none_unknown :
      (s : S) (rs : List Recorded)
      → AllKnown s rs
      → select (λ (r : Recorded). not (contains_by_local_id st r.local_id s)) rs ≡ []
  none_unknown s [] k = refl
  none_unknown s (r ∷ rs) k = ground (arith, k.0, none_unknown s rs k.1)

  -- After an import that succeeds none of the gateways that the recorder named is unknown any more:
  -- `ListUnknownGateways` replies with the empty list. Every entry of the import's reply is signed by
  -- the key of the gateway that the store has under its local ID, for the owner of the request.
  pub import_gateways_complete :
      (outs : ℕ → Outside IO) (req : ImportRequest) (rs : List Recorded) (s : S) (code : ℕ)
      (os : List OnboardReply)
      → (import_gateways st ext svc outs (some req) (recorded rs) s).0 ≡ reply code os
      → (list_unknown_gateways st
            (recorded rs)
            (import_gateways st ext svc outs (some req) (recorded rs) s).2
          ≡ reply 200 [])
        × AllSigned req.owner (import_gateways st ext svc outs (some req) (recorded rs) s).2 os
  unfolding import_gateways list_unknown_gateways
  import_gateways_complete outs req rs s code os h = elim (Bool-cases (req.owner == 0)) [
    | inl y ↦ let h' = rw (y, import_gateways) at h in cc h'
    | inr n ↦
        let h' = rw (n, import_gateways) at h in
        let (known, signed) = import_from_complete outs req rs 200 [] [] s code os tt h' in
        rw (n, import_gateways)
          (
            ap (reply 200)
                (none_unknown (import_from st ext svc outs req rs 200 [] [] s).2 rs known),
            signed,
          )
  ]
