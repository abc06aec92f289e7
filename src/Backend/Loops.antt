-- ===== src/Backend/Loops.antt =====
-- The loops over the channels of a band (forwarder/backend.go): what they read and keep.
use packet_handling.Base.{
  bind_some, subst, ap, sym, ◌∙◌, ℕ, ◌≡◌, ◌⊎◌, inl, inr, true, some, List, [], ◌∷◌, ◌++◌, arith,
  contains, Option-cases, Bool-cases,
}
use packet_handling.Backend.{
  Band, Channel, Range, Concentrator, widen, top_rate, assign, load_uplinks, load_downlinks,
}
use packet_handling.Backend.Widen.{
  Within, Ends, widen-Within, widen-keeps, widen-Ends, contains-cons, contains-snoc,
}

module _ {Rate : Type 0} (b : Band Rate) where
  pub uplinks-step :
      (i : ℕ) (is : List ℕ) (r : Range) (c : Concentrator) (out : Range × Concentrator)
      → load_uplinks b (i ∷ is) r c ≡ some out
      → (ch : Channel) × (b.uplink_channel i ≡ some ch)
        × (d : Concentrator) × (load_uplinks b is (widen ch.frequency r) d ≡ some out)
  unfolding load_uplinks
  uplinks-step i is r c out h =
      let (ch, n, h1) = bind_some (b.uplink_channel i) _ out h in
      let (least, m, h2) = bind_some (b.data_rate ch.min_dr) _ out h1 in
      let (top, t, h3) = bind_some (top_rate b ch) _ out h2 in
      (ch, n, assign b ch.frequency least top c, h3)

  -- What the downlink loop does with an uplink channel: its RX1 channel is already reported, or is read.
  pub downlinks-step :
      (i : ℕ) (is reported : List ℕ) (r s : Range)
      → load_downlinks b (i ∷ is) reported r ≡ some s
      → (j : ℕ) × (b.rx1_channel i ≡ some j)
        × (((contains j reported ≡ true) × (load_downlinks b is reported r ≡ some s))
            ⊎ ((ch : Channel) × (b.downlink_channel j ≡ some ch)
                × (load_downlinks b is (reported ++ j ∷ []) (widen ch.frequency r) ≡ some s)))
  unfolding load_downlinks
  downlinks-step i is reported r s h = elim (Option-cases (b.rx1_channel i)) [
    | inl n ↦ let h' = rw (n, load_downlinks) at h in cc h'
    | inr (j, n) ↦ elim (Bool-cases (contains j reported)) [
      | inl m ↦ (j, n, inl (m, (rw (n, m, load_downlinks) at h)))
      | inr m ↦ elim (Option-cases (b.downlink_channel j)) [
        | inl c ↦ let h' = rw (n, m, c, load_downlinks) at h in cc h'
        | inr (ch, c) ↦ elim (Option-cases (top_rate b ch)) [
          | inl t ↦ let h' = rw (n, m, c, t, load_downlinks) at h in cc h'
          | inr (top, t) ↦ (j, n, inr (ch, c, (rw (n, m, c, t, load_downlinks) at h)))
        ]
      ]
    ]
  ]

  pub uplinks-keep :
      (is : List ℕ) (r : Range) (c : Concentrator) (s : Range) (d : Concentrator) (f : ℕ)
      → load_uplinks b is r c ≡ some (s, d)
      → Within f r
      → Within f s
  unfolding load_uplinks
  uplinks-keep [] r c s d f h w = subst (Within f) (ground (arith, h)) w
  uplinks-keep (i ∷ is) r c s d f h w =
      let (ch, n, c', rest) = uplinks-step i is r c (s, d) h in
      uplinks-keep is (widen ch.frequency r) c' s d f rest (widen-keeps ch.frequency f r w)

  pub uplinks-Within :
      (is : List ℕ) (r : Range) (c : Concentrator) (s : Range) (d : Concentrator) (i : ℕ)
      (ch : Channel)
      → load_uplinks b is r c ≡ some (s, d)
      → contains i is ≡ true
      → b.uplink_channel i ≡ some ch
      → Within ch.frequency s
  uplinks-Within [] r c s d i ch h m n = absurd (ground (arith, m))
  uplinks-Within (k ∷ is) r c s d i ch h m n =
      let (hd, n', c', rest) = uplinks-step k is r c (s, d) h in
      elim (contains-cons i k is m) [
        | inl e ↦
            let same : ch ≡ hd = ground (arith, n, n', ap b.uplink_channel e) in
            uplinks-keep is (widen hd.frequency r) c' s d ch.frequency rest (
              subst (λ x. Within x.frequency (widen hd.frequency r)) (sym same)
                (widen-Within hd.frequency r))
        | inr e ↦ uplinks-Within is (widen hd.frequency r) c' s d i ch rest e n
      ]

  pub uplinks-Ends :
      (P : ℕ → Type 0) (is : List ℕ) (r : Range) (c : Concentrator) (s : Range) (d : Concentrator)
      → ((i : ℕ) (ch : Channel)
          → contains i is ≡ true
          → b.uplink_channel i ≡ some ch
          → P ch.frequency)
      → load_uplinks b is r c ≡ some (s, d)
      → Ends P r
      → Ends P s
  unfolding load_uplinks
  uplinks-Ends P [] r c s d p h e = subst (Ends P) (ground (arith, h)) e
  uplinks-Ends P (i ∷ is) r c s d p h e =
      let (ch, n, c', rest) = uplinks-step i is r c (s, d) h in
      uplinks-Ends P is (widen ch.frequency r) c' s d (λ j ch' m. p j ch' (ground (arith, m))) rest
        (widen-Ends P ch.frequency r (p i ch (ground arith) n) e)

  pub downlinks-keep :
      (is reported : List ℕ) (r s : Range) (f : ℕ)
      → load_downlinks b is reported r ≡ some s
      → Within f r
      → Within f s
  unfolding load_downlinks
  downlinks-keep [] reported r s f h w = subst (Within f) (ground (arith, h)) w
  downlinks-keep (i ∷ is) reported r s f h w =
      let (j, n, how) = downlinks-step i is reported r s h in
      elim how [
        | inl (m, rest) ↦ downlinks-keep is reported r s f rest w
        | inr (ch, m, rest) ↦
            downlinks-keep is (reported ++ j ∷ []) (widen ch.frequency r) s f rest
              (widen-keeps ch.frequency f r w)
      ]

  -- The channels that are already reported lie in the range.
  abbrev pub Reported : List ℕ → Range → Type 0
  Reported js r =
      (j : ℕ) (ch : Channel)
      → contains j js ≡ true
      → b.downlink_channel j ≡ some ch
      → Within ch.frequency r

  Reported-snoc :
      (js : List ℕ) (j : ℕ) (ch : Channel) (r : Range)
      → b.downlink_channel j ≡ some ch
      → Reported js r
      → Reported (js ++ j ∷ []) (widen ch.frequency r)
  Reported-snoc js j ch r n h k hd m n' = elim (contains-snoc k j js m) [
    | inl e ↦
        let same : hd ≡ ch = ground (arith, n, n', ap b.downlink_channel e) in
        subst (λ x. Within x.frequency (widen ch.frequency r)) (sym same)
          (widen-Within ch.frequency r)
    | inr e ↦ widen-keeps ch.frequency hd.frequency r (h k hd e n')
  ]

  pub downlinks-Within :
      (is reported : List ℕ) (r s : Range) (i j : ℕ) (ch : Channel)
      → load_downlinks b is reported r ≡ some s
      → Reported reported r
      → contains i is ≡ true
      → b.rx1_channel i ≡ some j
      → b.downlink_channel j ≡ some ch
      → Within ch.frequency s
  downlinks-Within [] reported r s i j ch h p m n c = absurd (ground (arith, m))
  downlinks-Within (k ∷ is) reported r s i j ch h p m n c =
      let (j', n', how) = downlinks-step k is reported r s h in
      elim (contains-cons i k is m) [
        | inl e ↦
            let same : j ≡ j' = ground (arith, n, n', ap b.rx1_channel e) in
            elim how [
              | inl (seen, rest) ↦
                  downlinks-keep is reported r s ch.frequency rest
                    (p j ch (ap (λ t. contains t reported) same ∙ seen) c)
              | inr (hd, c', rest) ↦
                  let alike : ch ≡ hd = ground (arith, c, c', ap b.downlink_channel same) in
                  downlinks-keep is (reported ++ j' ∷ []) (widen hd.frequency r) s ch.frequency rest
                    (subst (λ x. Within x.frequency (widen hd.frequency r)) (sym alike)
                      (widen-Within hd.frequency r))
            ]
        | inr e ↦ elim how [
          | inl (seen, rest) ↦ downlinks-Within is reported r s i j ch rest p e n c
          | inr (hd, c', rest) ↦
              downlinks-Within is (reported ++ j' ∷ []) (widen hd.frequency r) s i j ch rest
                (Reported-snoc reported j' hd r c' p) e n c
        ]
      ]

  pub downlinks-Ends :
      (P : ℕ → Type 0) (is reported : List ℕ) (r s : Range)
      → ((i j : ℕ) (ch : Channel)
          → contains i is ≡ true
          → b.rx1_channel i ≡ some j
          → b.downlink_channel j ≡ some ch
          → P ch.frequency)
      → load_downlinks b is reported r ≡ some s
      → Ends P r
      → Ends P s
  unfolding load_downlinks
  downlinks-Ends P [] reported r s p h e = subst (Ends P) (ground (arith, h)) e
  downlinks-Ends P (i ∷ is) reported r s p h e =
      let (j, n, how) = downlinks-step i is reported r s h in
      elim how [
        | inl (m, rest) ↦
            downlinks-Ends P is reported r s (λ k j' ch' q. p k j' ch' (ground (arith, q))) rest e
        | inr (ch, m, rest) ↦
            downlinks-Ends P is (reported ++ j ∷ []) (widen ch.frequency r) s
              (λ k j' ch' q. p k j' ch' (ground (arith, q))) rest
              (widen-Ends P ch.frequency r (p i j ch (ground arith) n m) e)
      ]
