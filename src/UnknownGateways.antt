-- ===== src/UnknownGateways.antt =====
-- The recorders of unknown gateways: gateway/unknown_recorder.go.
pub mod Once
pub mod Yaml
pub mod Restart
mod Tests
use packet_handling.Base.{
  ℕ, Bool, true, false, Option, none, some, List, [], ◌∷◌, ◌++◌, ◌==◌, if◌then◌else◌, ◌≡◌, refl,
  ◌⊎◌, inl, inr,
}
use packet_handling.Base.Int.{ℤ, pos}

-- `RecordedUnknownGateway`
pub record Recorded : Type 0 where
  pub local_id : ℕ
  pub first_seen : Option ℤ

-- The three loggers: none, the YAML file with the copy in memory, and the table of the database,
-- whose primary key is the local ID. The file is the list of its entries, or `none` where a part of an
-- entry stands in it.
pub data Recorder : Type 0 where
  no_recorder : Recorder
  yaml_recorder : Option (List Recorded) → List Recorded → Recorder
  pg_recorder : List Recorded → Recorder

-- What becomes of a written entry: all of it is taken, nothing of it, or a part; the last two are errors.
pub data Writing : Type 0 where
  entire nothing in_part : Writing

pub Writing-cases : (w : Writing) → (w ≡ entire) ⊎ ((w ≡ nothing) ⊎ (w ≡ in_part))
Writing-cases entire = inl refl
Writing-cases nothing = inr (inl refl)
Writing-cases in_part = inr (inr refl)

-- What the file or the database answers.
pub record Answers : Type 0 where
  pub opens : Bool
  pub writes : Writing

abbrev pub appended : Recorded → Option (List Recorded) → Option (List Recorded)
appended one none = none
appended one (some file) = some (file ++ one ∷ [])

unfoldable pub is_recorded : ℕ → List Recorded → Bool
is_recorded id [] = false
is_recorded id (r ∷ rs) = if r.local_id == id then true else is_recorded id rs

-- `Record`; `false` is an error.
unfoldable pub record_gateway : Answers → ℕ → ℕ → Recorder → Bool × Recorder
record_gateway ans now id no_recorder = (true, no_recorder)
record_gateway ans now id (yaml_recorder file recorded) =
    let one : Recorded = record { local_id = id; first_seen = some (pos now) } in
    if is_recorded id recorded
    then (true, yaml_recorder file recorded)
    else if ans.opens
    then elim ans.writes [
      | entire ↦ (true, yaml_recorder (appended one file) (recorded ++ one ∷ []))
      | nothing ↦ (false, yaml_recorder file recorded)
      | in_part ↦ (false, yaml_recorder none recorded)
    ]
    else (false, yaml_recorder file recorded)
record_gateway ans now id (pg_recorder table) =
    let one : Recorded = record { local_id = id; first_seen = some (pos now) } in
    if ans.opens
    then if is_recorded id table then (true, pg_recorder table) else elim ans.writes [
      | entire ↦ (true, pg_recorder (table ++ one ∷ []))
      | _ ↦ (false, pg_recorder table)
    ]
    else (false, pg_recorder table)

-- `Recorded`; `none` is the error of the recorder that is switched off.
abbrev pub recorded_gateways : Recorder → Option (List Recorded)
recorded_gateways no_recorder = none
recorded_gateways (yaml_recorder file recorded) = some recorded
recorded_gateways (pg_recorder table) = some table
