-- ===== src/UnknownGateways/Yaml.antt =====
-- The entries of the file of unknown gateways: UnmarshalYAML of gateway/unknown_recorder.go, and the
-- loading of the file when the forwarder starts. The YAML codec and the text form of an EUI64 are
-- parameters; a text is the list of its bytes.
use packet_handling.Base.{ℕ, String, Bool, false, Option, none, some, List, [], ◌∷◌, if◌then◌else◌}
use packet_handling.Base.Int.{ℤ}
use packet_handling.UnknownGateways.{Recorded, Recorder, no_recorder, yaml_recorder, pg_recorder}
use text.Mathlib.Text.{◌==◌ as str_eq}

-- A value of a `map[string]interface{}`: a string, an int of any size, or anything else.
pub data Value : Type 0 where
  string : List ℕ → Value
  number : ℤ → Value
  other_value : Value

abbrev pub Fields : Type 0
Fields = List (String × Value)

abbrev pub field : String → Fields → Option Value
field k [] = none
field k ((j, v) ∷ fs) = if str_eq j k then some v else field k fs

-- What reading comes to: a value, an error, or a panic on a type assertion.
pub data Loaded (A : Type 0) : Type 0 where
  loaded : A → Loaded A
  invalid panicked : Loaded A

-- The text of a file as a list of nodes, `none` where it does not decode, decoding of a node into a map
-- and into a string, the text of a list of one map, and an EUI64 as a text.
pub record Codec (Node : Type 0) : Type 0 where
  pub parse : List ℕ → Option (List Node)
  pub as_map : Node → Option Fields
  pub as_string : Node → Option (List ℕ)
  pub print : Fields → List ℕ
  pub eui_text : ℕ → List ℕ
  pub eui_of : List ℕ → Option ℕ

-- The fields that `yaml.Marshal` writes of a `RecordedUnknownGateway`
abbrev pub first_seen_value : Option ℤ → Value
first_seen_value none = other_value
first_seen_value (some t) = number t

-- `ForwarderGatewayRecordUnknownConfig`
pub record RecordUnknownConfig : Type 0 where
  pub file : String
  pub postgresql : Option Bool

-- What is found at the path of the file
pub data EntryFile : Type 0 where
  no_file unreadable : EntryFile
  entry_text : List ℕ → EntryFile

-- A recorder, or the end of the process by `logrus.Fatal` or a panic
pub data Started : Type 0 where
  started : Recorder → Started
  stopped crashed : Started

module _ {Node : Type 0} (codec : Codec Node) where
  unfoldable pub fields_of : Recorded → Fields
  fields_of r =
      ("local_id", string (codec.eui_text r.local_id))
      ∷ ("first_seen", first_seen_value r.first_seen)
      ∷ []

  -- An entry with a local ID, and the value of `first_seen`; without one the time is 0.
  unfoldable pub with_first_seen : ℕ → Option Value → Loaded Recorded
  with_first_seen id none = loaded (record { local_id = id; first_seen = some (ℤ.pos 0) })
  with_first_seen id (some (number t)) = loaded (record { local_id = id; first_seen = some t })
  with_first_seen id (some (string s)) = invalid
  with_first_seen id (some other_value) = invalid

  unfoldable pub of_fields : Fields → Loaded Recorded
  of_fields fs = elim (field "local_id" fs) [
    | none ↦ panicked
    | some (number t) ↦ panicked
    | some other_value ↦ panicked
    | some (string s) ↦ elim (codec.eui_of s) [
      | none ↦ invalid
      | some id ↦ with_first_seen id (field "first_seen" fs)
    ]
  ]

  -- The legacy form, a bare local ID
  unfoldable pub of_string : Option (List ℕ) → Loaded Recorded
  of_string none = invalid
  of_string (some s) = elim (codec.eui_of s) [
    | none ↦ invalid
    | some id ↦ loaded (record { local_id = id; first_seen = none })
  ]

  -- `UnmarshalYAML`
  unfoldable pub unmarshal_yaml : Node → Loaded Recorded
  unmarshal_yaml node = elim (codec.as_map node) [
    | some fs ↦ of_fields fs
    | none ↦ of_string (codec.as_string node)
  ]

  abbrev pub and_rest : Recorded → Loaded (List Recorded) → Loaded (List Recorded)
  and_rest r (loaded rs) = loaded (r ∷ rs)
  and_rest r invalid = invalid
  and_rest r panicked = panicked

  -- The decoding of the file in `recordUnkownGatewaysToFile`
  unfoldable pub load_entries : List Node → Loaded (List Recorded)
  load_entries [] = loaded []
  load_entries (node ∷ nodes) = elim (unmarshal_yaml node) [
    | loaded r ↦ and_rest r (load_entries nodes)
    | invalid ↦ invalid
    | panicked ↦ panicked
  ]

  -- `recordUnkownGatewaysToFile`
  unfoldable pub record_to_file : EntryFile → Started
  record_to_file no_file = started (yaml_recorder (some []) [])
  record_to_file unreadable = stopped
  record_to_file (entry_text t) = elim (codec.parse t) [
    | none ↦ stopped
    | some ns ↦ elim (load_entries ns) [
      | loaded rs ↦ started (yaml_recorder (some rs) rs)
      | invalid ↦ stopped
      | panicked ↦ crashed
    ]
  ]

  -- `NewUnknownGatewayLogger`; the table may not be created, or have rows.
  unfoldable pub new_unknown_gateway_logger :
      Option RecordUnknownConfig → Option (List Recorded) → EntryFile → Started
  new_unknown_gateway_logger none table file = started no_recorder
  new_unknown_gateway_logger (some cfg) table file =
      if elim cfg.postgresql [ none ↦ false | some on ↦ on ]
      then elim table [ none ↦ stopped | some rows ↦ started (pg_recorder rows) ]
      else if str_eq cfg.file ""
      then started no_recorder
      else record_to_file file
