-- ===== src/UnknownGateways/Once.antt =====
-- What calls of Record, one after another, keep of a recorder (gateway/unknown_recorder.go).
use packet_handling.Base.{
  Option, none, ◌⊎◌, inl, inr, Bool-cases, ℕ, ◌≡◌, refl, Bool, true, false, some, List, [], ◌∷◌,
  ◌++◌, ◌==◌, ◌||◌, ◌&&◌, if◌then◌else◌, arith,
}
use packet_handling.Base.Int.{pos}
use packet_handling.UnknownGateways.{
  Recorded, Recorder, no_recorder, yaml_recorder, pg_recorder, Answers, is_recorded, record_gateway,
  appended, Writing-cases,
}

-- No local ID is recorded twice, and a file without a part of an entry has what the memory has.
abbrev pub Once : List Recorded → Type 0
Once [] = Unit
Once (r ∷ rs) = (is_recorded r.local_id rs ≡ false) × Once rs

abbrev pub IsSound : Recorder → Type 0
IsSound no_recorder = Unit
IsSound (yaml_recorder file recorded) = ((file ≡ none) ⊎ (file ≡ some recorded)) × Once recorded
IsSound (pg_recorder table) = Once table

abbrev pub knows : ℕ → Recorder → Bool
knows id no_recorder = false
knows id (yaml_recorder file recorded) = is_recorded id recorded
knows id (pg_recorder table) = is_recorded id table

is_recorded-append :
    (id : ℕ) (rs : List Recorded) (r : Recorded)
    → is_recorded id (rs ++ r ∷ []) ≡ (if is_recorded id rs then true else r.local_id == id)
unfolding is_recorded
is_recorded-append id [] r = ground arith
is_recorded-append id (x ∷ rs) r = ground (arith, is_recorded-append id rs r)

Once-append :
    (rs : List Recorded) (r : Recorded)
    → is_recorded r.local_id rs ≡ false
    → Once rs
    → Once (rs ++ r ∷ [])
unfolding is_recorded
Once-append [] r h o = (refl, tt)
Once-append (x ∷ rs) r h o =
    (ground (arith, is_recorded-append x.local_id rs r), Once-append rs r (ground arith) o.1)

abbrev pub is_on : Recorder → Bool
is_on no_recorder = false
is_on (yaml_recorder file recorded) = true
is_on (pg_recorder table) = true

appended-some :
    (file : Option (List Recorded)) (recorded : List Recorded) (one : Recorded)
    → (file ≡ none) ⊎ (file ≡ some recorded)
    → (appended one file ≡ none) ⊎ (appended one file ≡ some (recorded ++ one ∷ []))
appended-some file recorded one (inl n) = inl (rw n refl)
appended-some file recorded one (inr n) = inr (rw n refl)

-- Where calls do not overlap, `Record` keeps a recorder sound: no local ID is listed twice, and a YAML
-- file has what the memory has unless a write left a part of an entry in it. The IDs it knows
-- afterwards are those it knew and, where the call gave no error and the recorder is switched on, the
-- one that was given.
pub record_gateway-IsSound :
    (ans : Answers) (now id other : ℕ) (r : Recorder)
    → IsSound r
    → let r2 = record_gateway ans now id r in
      IsSound r2.1 × (knows other r2.1 ≡ (knows other r || (r2.0 && (is_on r && id == other))))
unfolding record_gateway is_recorded
record_gateway-IsSound ans now id other no_recorder s = (tt, ground arith)
record_gateway-IsSound ans now id other (yaml_recorder file recorded) s =
    let one : Recorded = record { local_id = id; first_seen = some (pos now) } in
    elim (Bool-cases (is_recorded id recorded)) [
      | inl e ↦ rw (e, record_gateway) (s, ground arith)
      | inr e ↦ elim (Bool-cases ans.opens) [
        | inr o ↦ rw (e, o, record_gateway) (s, ground arith)
        | inl o ↦ elim (Writing-cases ans.writes) [
          | inl w ↦
              rw (e, o, w, record_gateway)
                (
                  (appended-some file recorded one s.0, Once-append recorded one e s.1),
                  ground (arith, is_recorded-append other recorded one),
                )
          | inr (inl w) ↦ rw (e, o, w, record_gateway) (s, ground arith)
          | inr (inr w) ↦ rw (e, o, w, record_gateway) ((inl refl, s.1), ground arith)
        ]
      ]
    ]
record_gateway-IsSound ans now id other (pg_recorder table) s =
    let one : Recorded = record { local_id = id; first_seen = some (pos now) } in
    ground (arith, is_recorded-append other table one, Once-append table one)

-- A local ID that a call recorded without an error is left alone by the calls that follow for it,
-- whenever they come and whatever the file or the database answers.
pub recorded_again :
    (ans again : Answers) (now later id : ℕ) (r : Recorder)
    → (record_gateway ans now id r).0 ≡ true
    → (record_gateway again later id (record_gateway ans now id r).1).1
      ≡ (record_gateway ans now id r).1
unfolding record_gateway is_recorded
recorded_again ans again now later id no_recorder h = refl
recorded_again ans again now later id (yaml_recorder file recorded) h =
    let one : Recorded = record { local_id = id; first_seen = some (pos now) } in
    ground (arith, is_recorded-append id recorded one)
recorded_again ans again now later id (pg_recorder table) h =
    let one : Recorded = record { local_id = id; first_seen = some (pos now) } in
    ground (arith, is_recorded-append id table one)
