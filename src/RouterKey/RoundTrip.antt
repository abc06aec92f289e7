-- ===== src/RouterKey/RoundTrip.antt =====
-- The key file between its generation and the start of the router (router/key.go).
use packet_handling.Base.{
  ℕ, zero, suc, Bool, ◌≡◌, refl, ap, ◌∙◌, true, false, Option, some, List, Option-cases, Bool-cases,
  inl, inr,
}
use packet_handling.Identifiers.{
  hex, key, failed, running, Generated, has_prefix_2, generate_private_key,
}
use packet_handling.RouterKey.{
  Keyfile, Disk, missing, unreadable, contents, printed, Externals, Writes, id_text, keyfile_of,
  write_key, must_generate_key, load_router_identity,
}

-- What the loop gives starts with 2.
generated-prefix :
    (compress_pubkey : ℕ → List ℕ) (draw : ℕ → Option ℕ) (fuel i k : ℕ)
    → generate_private_key compress_pubkey draw fuel i ≡ key k
    → has_prefix_2 compress_pubkey k ≡ true
unfolding generate_private_key
generated-prefix compress_pubkey draw zero i k h = cc h
generated-prefix compress_pubkey draw (suc fuel) i k h = elim (Option-cases (draw i)) [
  | inl n ↦ let h' = rw (n, generate_private_key) at h in cc h'
  | inr (j, n) ↦ elim (Bool-cases (has_prefix_2 compress_pubkey j)) [
    | inl p ↦
        let h' = rw (n, p, generate_private_key) at h in
        ap (has_prefix_2 compress_pubkey) (cc h') ∙ p
    | inr p ↦
        let h' = rw (n, p, generate_private_key) at h in
        generated-prefix compress_pubkey draw fuel (suc i) k h'
  ]
]

module _ (ext : Externals) where
  write_key-printed :
      (encodes : Bool) (g : Generated) (id : List ℕ) (after : Disk)
      → write_key ext encodes g ≡ (printed id, after)
      → (k : ℕ) × (g ≡ key k)
        × (id ≡ id_text ext k)
        × (after ≡ contents (ext.encode (keyfile_of ext k)))
  unfolding write_key
  write_key-printed encodes failed id after h = cc h
  write_key-printed encodes running id after h = cc h
  write_key-printed true (key k) id after h = (k, refl, cc h, cc h)
  write_key-printed false (key k) id after h = cc h

  written_key_loads :
      (k : ℕ)
      → ext.decode (ext.encode (keyfile_of ext k)) ≡ some (keyfile_of ext k)
      → ext.hex_to_ecdsa (hex (ext.from_ecdsa k)) ≡ some k
      → load_router_identity ext (contents (ext.encode (keyfile_of ext k)))
        ≡ some (record { id = id_text ext k; private_key = k })
  unfolding load_router_identity keyfile_of
  written_key_loads k d e = rw (d, e) refl

  -- Where a key is generated, nothing stood at the path before, and what is read back at the start of
  -- the router is the printed ID with a key whose compressed form starts with 2, for a YAML codec and
  -- an encoding of keys that read back what they wrote.
  pub generated_key_loads :
      (w : Writes) (draw : ℕ → Option ℕ) (fuel : ℕ) (before after : Disk) (id : List ℕ)
      → ((file : Keyfile) → ext.decode (ext.encode file) ≡ some file)
      → ((k : ℕ) → ext.hex_to_ecdsa (hex (ext.from_ecdsa k)) ≡ some k)
      → must_generate_key ext w draw fuel before ≡ (printed id, after)
      → (before ≡ missing)
        × (k : ℕ) × (has_prefix_2 ext.compress_pubkey k ≡ true)
        × (load_router_identity ext after ≡ some (record { id = id; private_key = k }))
  unfolding must_generate_key
  generated_key_loads w draw fuel unreadable after id d e h = cc h
  generated_key_loads w draw fuel (contents t) after id d e h = cc h
  generated_key_loads w draw fuel missing after id d e h = elim (Bool-cases w.creates) [
    | inr n ↦ let h' = rw (n, must_generate_key) at h in cc h'
    | inl n ↦
        let (k, g, i, a) =
          write_key-printed w.encodes (generate_private_key ext.compress_pubkey draw fuel 0) id
            after (rw (n, must_generate_key) at h) in
        (
          refl,
          k,
          generated-prefix ext.compress_pubkey draw fuel 0 k g,
          rw (a, i) (written_key_loads k (d (keyfile_of ext k)) (e k)),
        )
  ]
