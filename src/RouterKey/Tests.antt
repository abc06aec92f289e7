-- ===== src/RouterKey/Tests.antt =====
-- Tests of the key file (router/key.go).
use packet_handling.Base.{
  true, false, ℕ, ◌+◌, ◌-◌, ◌*◌, ◌/◌, ◌%◌, ◌≡◌, refl, true, Option, none, some, List, [], ◌∷◌, ◌++◌,
  arith, ltb, if◌then◌else◌, length, take, drop, ◌==◌,
}
use packet_handling.Identifiers.{has_prefix_2, generate_private_key, hex, hex_digit}
use packet_handling.RouterKey.{
  key_path, Keyfile, Disk, missing, contents, printed, fatal, Externals, id_text, keyfile_of,
  write_key, must_generate_key, load_router_identity,
}
use packet_handling.RouterKey.RoundTrip.{generated_key_loads}

-- The stand-ins: a key is one byte, and its compressed form starts with 2 if it is even; the codec
-- puts the length of the ID first.
abbrev digit : ℕ → ℕ
digit c = if ltb c 58 then c - 48 else c - 87

abbrev key_of : List ℕ → Option ℕ
key_of (a ∷ b ∷ []) = some (digit a * 16 + digit b)
key_of _ = none

abbrev encoded : Keyfile → List ℕ
encoded file = length file.id ∷ file.id ++ file.private_key

abbrev decoded : List ℕ → Option Keyfile
decoded [] = none
decoded (n ∷ rest) = some (record { id = take n rest; private_key = drop n rest })

abbrev ext : Externals
ext = record {
  encode = encoded;
  decode = decoded;
  from_ecdsa = λ k. k ∷ [];
  hex_to_ecdsa = key_of;
  compress_pubkey = λ k. (if k % 2 == 0 then 2 else 3) ∷ k ∷ [];
}

take-length : (xs ys : List ℕ) → take (length xs) (xs ++ ys) ≡ xs
take-length [] ys = refl
take-length (x ∷ xs) ys = cc (take-length xs ys)

drop-length : (xs ys : List ℕ) → drop (length xs) (xs ++ ys) ≡ ys
drop-length [] ys = refl
drop-length (x ∷ xs) ys = drop-length xs ys

decoded-encoded : (file : Keyfile) → decoded (encoded file) ≡ some file
decoded-encoded file =
    rw (take-length file.id file.private_key, drop-length file.id file.private_key) refl

key_of-hex : (k : ℕ) → key_of (hex (k ∷ [])) ≡ some k
key_of-hex k =
    let e : digit (hex_digit (k / 16)) * 16 + digit (hex_digit (k % 16)) ≡ k = ground arith in
    rw e refl

-- The first draw is odd, the second even.
abbrev draw : ℕ → Option ℕ
draw i = some (7 + i)

abbrev written : Disk
written = contents (encoded (record { id = id_text ext 8; private_key = 48 ∷ 56 ∷ [] }))

generated_test :
    must_generate_key ext (record { creates = true; encodes = true }) draw 2 missing
    ≡ (printed (id_text ext 8), written)
unfolding must_generate_key generate_private_key write_key keyfile_of
generated_test = refl

-- A key that is there is not replaced.
not_replaced_test :
    must_generate_key ext (record { creates = true; encodes = true }) draw 2 written
    ≡ (fatal, written)
unfolding must_generate_key
not_replaced_test = refl

generated_key_loads_example :
    (missing ≡ missing)
    × (k : ℕ) × (has_prefix_2 ext.compress_pubkey k ≡ true)
    × (load_router_identity ext written ≡ some (record { id = id_text ext 8; private_key = k }))
generated_key_loads_example =
    generated_key_loads ext (record { creates = true; encodes = true }) draw 2 missing written
      (id_text ext 8) decoded-encoded key_of-hex generated_test

-- A configured key file is not used, neither where the configuration loads nor where it fails to,
-- which leaves no configuration.
configured_path_test : key_path false (some "router.key") [] ≡ none
unfolding key_path
configured_path_test = refl

failed_config_test : key_path true none [] ≡ none
unfolding key_path
failed_config_test = refl

argument_path_test : key_path false (some "router.key") ("other.key" ∷ []) ≡ some "other.key"
unfolding key_path
argument_path_test = refl
