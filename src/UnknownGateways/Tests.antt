-- ===== src/UnknownGateways/Tests.antt =====
-- The recorders at work: a gateway recorded in a file that has another one.
use packet_handling.Base.{
  ℕ, zero, suc, Bool, ap, ◌∙◌, inr, none, ◌++◌, ◌≡◌, refl, true, false, ◌||◌, ◌&&◌, ◌==◌, some,
  List, [], ◌∷◌,
}
use packet_handling.Base.Int.{pos}
use packet_handling.UnknownGateways.{
  Recorded, yaml_recorder, Answers, entire, nothing, is_recorded, record_gateway,
}
use packet_handling.UnknownGateways.Yaml.{
  string, number, Fields, loaded, invalid, panicked, Codec, fields_of, with_first_seen, of_fields,
  of_string, unmarshal_yaml, load_entries, entry_text, started, new_unknown_gateway_logger,
  record_to_file,
}
use packet_handling.UnknownGateways.Restart.{
  Call, run_records, IsCodec, printed, restart_reads_back,
}
use packet_handling.UnknownGateways.Once.{IsSound, knows, is_on, record_gateway-IsSound}

abbrev willing : Answers
willing = record { opens = true; writes = entire }

abbrev refusing : Answers
refusing = record { opens = false; writes = nothing }

abbrev old : List Recorded
old = record { local_id = 4; first_seen = some (pos 1) } ∷ []

record_gateway-IsSound_example :
    IsSound (record_gateway willing 9 5 (yaml_recorder (some old) old)).1
    × (knows 5 (record_gateway willing 9 5 (yaml_recorder (some old) old)).1 ≡ (
        knows 5 (yaml_recorder (some old) old)
        || ((record_gateway willing 9 5 (yaml_recorder (some old) old)).0
            && (is_on (yaml_recorder (some old) old) && 5 == 5))))
unfolding is_recorded
record_gateway-IsSound_example =
    record_gateway-IsSound willing 9 5 5 (yaml_recorder (some old) old) (inr refl, (refl, tt))

new_recorded : (record_gateway willing 9 5 (yaml_recorder (some old) old)).0 ≡ true
unfolding record_gateway is_recorded
new_recorded = refl

-- A node is a map or a text; the text of a local ID is one byte, and an entry of the file is two: the
-- local ID, and 0 in the old form or the time from 1 on.
data Node : Type 0 where
  a_map : Fields → Node
  a_text : List ℕ → Node

abbrev of_entry : ℕ → ℕ → Node
of_entry id zero = a_text (id ∷ [])
of_entry id (suc t) = a_map (("local_id", string (id ∷ [])) ∷ ("first_seen", number (pos t)) ∷ [])

abbrev entry_nodes : List ℕ → List Node
entry_nodes [] = []
entry_nodes (id ∷ []) = []
entry_nodes (id ∷ t ∷ bytes) = of_entry id t ∷ entry_nodes bytes

abbrev is_even : List ℕ → Bool
is_even [] = true
is_even (id ∷ []) = false
is_even (id ∷ t ∷ bytes) = is_even bytes

abbrev printed_fields : Fields → List ℕ
printed_fields ((k, string (id ∷ [])) ∷ (j, number (pos t)) ∷ []) = id ∷ suc t ∷ []
printed_fields _ = []

abbrev codec : Codec Node
codec = record {
  parse = λ text. some (entry_nodes text);
  as_map = λ n. elim n [ a_map fs ↦ some fs | a_text t ↦ none ];
  as_string = λ n. elim n [ a_map fs ↦ none | a_text t ↦ some t ];
  print = printed_fields;
  eui_text = λ id. id ∷ [];
  eui_of = λ t. elim t [ [] ↦ none | b ∷ bs ↦ some b ];
}

entry_nodes-append :
    (text : List ℕ) (id t : ℕ)
    → is_even text ≡ true
    → entry_nodes (text ++ id ∷ t ∷ []) ≡ entry_nodes text ++ of_entry id t ∷ []
entry_nodes-append [] id t e = refl
entry_nodes-append (a ∷ []) id t e = cc e
entry_nodes-append (a ∷ b ∷ text) id t e =
    ap (λ ns. of_entry a b ∷ ns) (entry_nodes-append text id t e)

is_even-append :
    (text : List ℕ) (id t : ℕ) → is_even text ≡ true → is_even (text ++ id ∷ t ∷ []) ≡ true
is_even-append [] id t e = refl
is_even-append (a ∷ []) id t e = cc e
is_even-append (a ∷ b ∷ text) id t e = is_even-append text id t e

codec-IsCodec : IsCodec codec (λ text. is_even text ≡ true)
unfolding fields_of
codec-IsCodec = record {
  appends = λ text nodes id now e p.
      let same : entry_nodes text ≡ nodes = ap (λ o. elim o [ none ↦ [] | some ns ↦ ns ]) p in
      (
        of_entry id (suc now),
        ap some (
            entry_nodes-append text id (suc now) e
            ∙ ap (λ ns. ns ++ of_entry id (suc now) ∷ []) same),
        refl,
      );
  stays = λ text id now e. is_even-append text id (suc now) e;
  eui_back = λ id. refl;
}

-- A file of the old form, and what it is read as.
abbrev legacy : List ℕ
legacy = 4 ∷ 0 ∷ []

abbrev legacy_recorded : List Recorded
legacy_recorded = record { local_id = 4; first_seen = none } ∷ []

legacy_test : load_entries codec (entry_nodes legacy) ≡ loaded legacy_recorded
unfolding load_entries unmarshal_yaml of_string
legacy_test = refl

-- A time that is null is refused, a local ID that is an int or missing stops the forwarder.
null_time_test :
    unmarshal_yaml codec (a_map (fields_of codec (record { local_id = 4; first_seen = none })))
    ≡ invalid
unfolding unmarshal_yaml of_fields fields_of with_first_seen
null_time_test = refl

int_id_test :
    unmarshal_yaml codec (a_map (("local_id", number (pos 1122334455667788)) ∷ [])) ≡ panicked
unfolding unmarshal_yaml of_fields
int_id_test = refl

abbrev calls : List Call
calls =
    record { answers = willing; now = 9; id = 5 }
    ∷ record { answers = refusing; now = 10; id = 6 }
    ∷ record { answers = willing; now = 11; id = 4 }
    ∷ []

restart_reads_back_example :
    (new : List Recorded) × (run_records calls
        (yaml_recorder (some legacy_recorded) legacy_recorded)
      ≡ yaml_recorder (some (legacy_recorded ++ new)) (legacy_recorded ++ new))
    × (record_to_file codec (entry_text (legacy ++ printed codec new))
        ≡ started (yaml_recorder (some (legacy_recorded ++ new)) (legacy_recorded ++ new)))
restart_reads_back_example =
    restart_reads_back codec (λ text. is_even text ≡ true) codec-IsCodec calls legacy
      (entry_nodes legacy) legacy_recorded refl refl refl legacy_test

-- Without a database the file is read.
file_logger_test :
    new_unknown_gateway_logger codec
      (some (record { file = "unknown.yaml"; postgresql = some false }))
      none
      (entry_text legacy)
    ≡ started (yaml_recorder (some legacy_recorded) legacy_recorded)
unfolding new_unknown_gateway_logger record_to_file load_entries unmarshal_yaml of_string
file_logger_test = refl
