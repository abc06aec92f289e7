-- ===== src/RouterKey.antt =====
-- The key file of a router: router/key.go, and GenerateKey of router/cmd.go. A text is the list of its bytes. The YAML codec and
-- go-ethereum's keys are parameters.
pub mod RoundTrip
mod Tests
use packet_handling.Base.{
  ℕ, String, ◌∷◌, ◌>>=◌, Bool, true, false, Option, none, some, List, [], if◌then◌else◌,
}
use packet_handling.Base.Time.{be_bytes}
use packet_handling.Identifiers.{
  hex, Generated, key, failed, running, generate_private_key, derive_thingsix_id,
}
use text.Mathlib.Text.{◌==◌ as str_eq}

-- `Identity`
pub record Identity : Type 0 where
  pub id : List ℕ
  pub private_key : ℕ

-- `Keyfile`
pub record Keyfile : Type 0 where
  pub id : List ℕ
  pub private_key : List ℕ

-- What stands at the path: nothing, a thing that cannot be read, or a text.
pub data Disk : Type 0 where
  missing unreadable : Disk
  contents : List ℕ → Disk

-- How `mustGenerateKey` ends: it has printed an ID, or ended the process; `unfinished` is no Go value.
pub data Written : Type 0 where
  printed : List ℕ → Written
  fatal unfinished : Written

-- The YAML codec, `crypto.FromECDSA`, `crypto.HexToECDSA` and `crypto.CompressPubkey`
pub record Externals : Type 0 where
  pub encode : Keyfile → List ℕ
  pub decode : List ℕ → Option Keyfile
  pub from_ecdsa : ℕ → List ℕ
  pub hex_to_ecdsa : List ℕ → Option ℕ
  pub compress_pubkey : ℕ → List ℕ

-- Whether the file is created and written.
pub record Writes : Type 0 where
  pub creates : Bool
  pub encodes : Bool

abbrev pub path_of : Option String → String
path_of none = ""
path_of (some keyfile) = keyfile

-- `GenerateKey` of router/cmd.go: the path that the key is written to, or `none` for `logrus.Fatal`,
-- by whether the configuration failed to load, its key file, which is `none` for a nil configuration,
-- and the arguments.
unfoldable pub key_path : Bool → Option String → List String → Option String
key_path is_failed config args =
    let configured = if is_failed then path_of config else "" in
    let path : String = elim args [
      | [] ↦ configured
      | a ∷ more ↦ elim more [ [] ↦ a | _ ∷ _ ↦ configured ]
    ] in
    if str_eq path "" then none else some path

module _ (ext : Externals) where
  -- `hex.EncodeToString(thingsIxID[:])`
  unfoldable pub id_text : ℕ → List ℕ
  id_text k = hex (be_bytes 32 (derive_thingsix_id ext.compress_pubkey k))

  unfoldable pub keyfile_of : ℕ → Keyfile
  keyfile_of k = record { id = id_text k; private_key = hex (ext.from_ecdsa k) }

  -- From the created file on
  unfoldable pub write_key : Bool → Generated → Written × Disk
  write_key encodes failed = (fatal, contents [])
  write_key encodes running = (unfinished, contents [])
  write_key encodes (key k) =
      if encodes
      then (printed (id_text k), contents (ext.encode (keyfile_of k)))
      else (fatal, contents [])

  -- `mustGenerateKey`, with the draws of `crypto.GenerateKey`
  unfoldable pub must_generate_key : Writes → (ℕ → Option ℕ) → ℕ → Disk → Written × Disk
  must_generate_key w draw fuel missing =
      if w.creates
      then write_key w.encodes (generate_private_key ext.compress_pubkey draw fuel 0)
      else (fatal, missing)
  must_generate_key w draw fuel unreadable = (fatal, unreadable)
  must_generate_key w draw fuel (contents t) = (fatal, contents t)

  -- `loadRouterIdentity`
  unfoldable pub load_router_identity : Disk → Option Identity
  load_router_identity missing = none
  load_router_identity unreadable = none
  load_router_identity (contents t) = do
    file ← ext.decode t
    k ← ext.hex_to_ecdsa file.private_key
    some (record { id = id_text k; private_key = k })
