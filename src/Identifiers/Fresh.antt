-- ===== src/Identifiers/Fresh.antt =====
-- The keys of new gateways, and the compressed key that goes into the messages (utils/thingsix.go,
-- gateway/gateway.go).
use packet_handling.Base.{
  ℕ, zero, suc, ◌+◌, ◌*◌, ◌/◌, ◌%◌, ◌^◌, ◌<◌, ◌≡◌, refl, sym, ap, ◌∙◌, true, false, Option, none,
  some, List, [], ◌∷◌, arith, length,
}
use packet_handling.Base.Time.{be_bytes}
use packet_handling.GatewayIds.{network_id_of_id, be_number, compressed_pub_key_bytes}
use packet_handling.GatewayStore.{Gateway}
use packet_handling.Identifiers.{
  key, has_prefix_2, generate_private_key, derive_thingsix_id, generate_new_gateway,
}
use packet_handling.Identifiers.Text.{IsBytes}
use native.Mathlib.Nat.{pow-suc, div-div-eq-div-mul}

-- The leading digits of a number.
be_number_div : (bs : List ℕ) (acc : ℕ) → IsBytes bs → be_number acc bs / 256 ^ length bs ≡ acc
be_number_div [] acc h = omega arith
be_number_div (b ∷ bs) acc h =
    ap (λ t. be_number (acc * 256 + b) bs / t) (pow-suc 256 (length bs))
    ∙ sym (div-div-eq-div-mul (be_number (acc * 256 + b) bs) (256 ^ length bs) 256)
    ∙ ap (λ t. t / 256) (be_number_div bs (acc * 256 + b) h.1)
    ∙ omega arith

-- The bytes of the number that bytes spell.
be_bytes-be_number :
    (bs : List ℕ) (acc : ℕ) → IsBytes bs → be_bytes (length bs) (be_number acc bs) ≡ bs
be_bytes-be_number [] acc h = refl
be_bytes-be_number (b ∷ bs) acc h =
    let e : be_number (acc * 256 + b) bs / 256 ^ length bs % 256 ≡ b =
      ap (λ t. t % 256) (be_number_div bs (acc * 256 + b) h.1) ∙ omega arith in
    cc (e, be_bytes-be_number bs (acc * 256 + b) h.1)

module _ (compress_pubkey : ℕ → List ℕ) where
  -- A compressed key of 33 bytes that starts with 2 is the one that the ID gives back.
  compressed-derive :
      (k : ℕ) (c : List ℕ)
      → compress_pubkey k ≡ c
      → has_prefix_2 compress_pubkey k ≡ true
      → length c ≡ 33
      → IsBytes c
      → compressed_pub_key_bytes (derive_thingsix_id compress_pubkey k) ≡ c
  unfolding compressed_pub_key_bytes derive_thingsix_id
  compressed-derive k [] e p l h = absurd (omega arith)
  compressed-derive k (b ∷ bs) e p l h =
      let w : length bs ≡ 32 = omega arith in
      let two : b ≡ 2 = ground (arith, e, p) in
      rw e (cc (two, ap (λ t. be_bytes t (be_number 0 bs)) w, be_bytes-be_number bs 0 h.1))

  module _ (draw : ℕ → Option ℕ) where
    -- From the i-th draw on, n draws give keys, none with a compressed form that starts with 2.
    abbrev pub Skips : ℕ → ℕ → Type 0
    Skips zero i = Unit
    Skips (suc n) i =
        ((k : ℕ) × (draw i ≡ some k) × (has_prefix_2 compress_pubkey k ≡ false)) × Skips n (suc i)

    generate-Skips :
        (n i fuel k : ℕ)
        → Skips n i
        → n < fuel
        → draw (i + n) ≡ some k
        → has_prefix_2 compress_pubkey k ≡ true
        → generate_private_key compress_pubkey draw fuel i ≡ key k
    unfolding generate_private_key
    generate-Skips n i zero k s l d p = absurd (omega arith)
    generate-Skips zero i (suc fuel) k s l d p =
        let e : draw i ≡ some k = ap draw (omega arith) ∙ d in rw (e, p, generate_private_key) refl
    generate-Skips (suc n) i (suc fuel) k s l d p =
        let (j, e, q) = s.0 in
        rw (e, q, generate_private_key)
          (generate-Skips n (suc i) fuel k s.1 (omega arith) (ap draw (omega arith) ∙ d) p)

    -- After draws of keys whose compressed form does not start with 2, and one whose form does, the
    -- loop of `GenerateNewGateway` has ended, with the last key; where the form has 33 bytes, the
    -- compressed key that the gateway sends to routers is that of its own key.
    pub generate_new_gateway_first :
        (sha256 : List ℕ → ℕ) (n fuel local_id k : ℕ)
        → Skips n 0
        → draw n ≡ some k
        → has_prefix_2 compress_pubkey k ≡ true
        → length (compress_pubkey k) ≡ 33
        → IsBytes (compress_pubkey k)
        → n < fuel
        → (gw : Gateway) × (generate_new_gateway compress_pubkey sha256 draw fuel local_id
            ≡ some gw)
          × (gw.local_id ≡ local_id)
          × (gw.private_key ≡ k)
          × (compressed_pub_key_bytes gw.thingsix_id ≡ compress_pubkey k)
    unfolding generate_new_gateway
    generate_new_gateway_first sha256 n fuel local_id k s d p w b l =
        let e = generate-Skips n 0 fuel k s l (ap draw (omega arith) ∙ d) p in
        rw (e, generate_new_gateway)
          (
            record {
              local_id = local_id;
              network_id = network_id_of_id sha256 (derive_thingsix_id compress_pubkey k);
              private_key = k;
              public_key_bytes = [];
              thingsix_id = derive_thingsix_id compress_pubkey k;
              owner = none;
              version = none;
              details = none;
            },
            refl,
            refl,
            refl,
            compressed-derive k (compress_pubkey k) refl p w b,
          )
