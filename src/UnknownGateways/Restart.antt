-- ===== src/UnknownGateways/Restart.antt =====
-- What a restart reads of the unknown gateways that were recorded (gateway/unknown_recorder.go).
use packet_handling.Base.{
  ℕ, ◌≡◌, refl, ap, sym, ◌∙◌, Bool, true, false, some, List, [], ◌∷◌, ◌++◌, if◌then◌else◌,
  Bool-cases, ◌⊎◌, inl, inr,
}
use mathlib.Core.List.{append_assoc, append-nil}
use packet_handling.Base.Int.{ℤ, pos}
use packet_handling.UnknownGateways.{
  Recorded, Recorder, yaml_recorder, Answers, Writing, entire, nothing, in_part, Writing-cases,
  is_recorded, record_gateway,
}
use packet_handling.UnknownGateways.Yaml.{
  Loaded, loaded, invalid, panicked, Codec, fields_of, with_first_seen, of_fields, unmarshal_yaml,
  and_rest, load_entries, entry_text, started, record_to_file,
}

-- One call of `Record`: the answers of the file system, the time and the local ID.
pub record Call : Type 0 where
  pub answers : Answers
  pub now : ℕ
  pub id : ℕ

-- Calls of `Record`, one after another
unfoldable pub run_records : List Call → Recorder → Recorder
run_records [] r = r
run_records (c ∷ cs) r = run_records cs (record_gateway c.answers c.now c.id r).1

-- No call leaves a part of an entry.
abbrev pub is_whole : Writing → Bool
is_whole entire = true
is_whole nothing = true
is_whole in_part = false

abbrev pub all_whole : List Call → Bool
all_whole [] = true
all_whole (c ∷ cs) = if is_whole c.answers.writes then all_whole cs else false

loaded-injective : (rs ts : List Recorded) → loaded rs ≡ loaded ts → rs ≡ ts
loaded-injective rs ts h = ap (λ o. elim o [ loaded l ↦ l | _ ↦ rs ]) h

Loaded-cases :
    (o : Loaded Recorded) → ((r : Recorded) × (o ≡ loaded r)) ⊎ ((o ≡ invalid) ⊎ (o ≡ panicked))
Loaded-cases (loaded r) = inl (r, refl)
Loaded-cases invalid = inr (inl refl)
Loaded-cases panicked = inr (inr refl)

record_step :
    (c : Call) (rs : List Recorded)
    → is_whole c.answers.writes ≡ true
    → let one : Recorded = record { local_id = c.id; first_seen = some (pos c.now) } in
      ((record_gateway c.answers c.now c.id (yaml_recorder (some rs) rs)).1
        ≡ yaml_recorder (some rs) rs)
      ⊎ ((record_gateway c.answers c.now c.id (yaml_recorder (some rs) rs)).1
          ≡ yaml_recorder (some (rs ++ one ∷ [])) (rs ++ one ∷ []))
unfolding record_gateway
record_step c rs whole = elim (Bool-cases (is_recorded c.id rs)) [
  | inl e ↦ inl (rw (e, record_gateway) refl)
  | inr e ↦ elim (Bool-cases c.answers.opens) [
    | inr o ↦ inl (rw (e, o, record_gateway) refl)
    | inl o ↦ elim (Writing-cases c.answers.writes) [
      | inl w ↦ inr (rw (e, o, w, record_gateway) refl)
      | inr (inl w) ↦ inl (rw (e, o, w, record_gateway) refl)
      | inr (inr w) ↦ let h = rw w at whole in cc h
    ]
  ]
]

module _ {Node : Type 0} (codec : Codec Node) where
  -- The text that the calls for new entries append
  unfoldable pub printed : List Recorded → List ℕ
  printed [] = []
  printed (r ∷ rs) = codec.print (fields_of codec r) ++ printed rs

  -- A new entry that is appended to a block sequence adds one node, the map that was written, and leaves
  -- a block sequence; every local ID is read back from its text form.
  pub record IsCodec (IsBlock : List ℕ → Type 0) : Type 0 where
    pub appends :
        (t : List ℕ) (nodes : List Node) (id : ℕ) (now : ℕ)
        → let fs = fields_of codec (record { local_id = id; first_seen = some (pos now) }) in
          IsBlock t
          → codec.parse t ≡ some nodes
          → (node : Node) × (codec.parse (t ++ codec.print fs) ≡ some (nodes ++ node ∷ []))
            × (codec.as_map node ≡ some fs)
    pub stays :
        (t : List ℕ) (id : ℕ) (now : ℕ)
        → IsBlock t
        → IsBlock (
            t
            ++ codec.print
                (fields_of codec (record { local_id = id; first_seen = some (pos now) })))
    pub eui_back : (id : ℕ) → codec.eui_of (codec.eui_text id) ≡ some id

  unmarshal_yaml-new :
      (node : Node) (id : ℕ) (t : ℤ)
      → codec.eui_of (codec.eui_text id) ≡ some id
      → codec.as_map node ≡ some (fields_of codec (record { local_id = id; first_seen = some t }))
      → unmarshal_yaml codec node ≡ loaded (record { local_id = id; first_seen = some t })
  unfolding unmarshal_yaml of_fields fields_of with_first_seen
  unmarshal_yaml-new node id t back m = rw (unmarshal_yaml, m, of_fields, back) refl

  and_rest-snoc :
      (r one : Recorded) (o p : Loaded (List Recorded)) (rs : List Recorded)
      → ((ts : List Recorded) → o ≡ loaded ts → p ≡ loaded (ts ++ one ∷ []))
      → and_rest codec r o ≡ loaded rs
      → and_rest codec r p ≡ loaded (rs ++ one ∷ [])
  and_rest-snoc r one (loaded ts) p rs ih h =
      rw (ih ts refl) (ap (λ l. loaded (l ++ one ∷ [])) (loaded-injective (r ∷ ts) rs h))
  and_rest-snoc r one invalid p rs ih h = cc h
  and_rest-snoc r one panicked p rs ih h = cc h

  load_entries-snoc :
      (nodes : List Node) (rs : List Recorded) (node : Node) (one : Recorded)
      → unmarshal_yaml codec node ≡ loaded one
      → load_entries codec nodes ≡ loaded rs
      → load_entries codec (nodes ++ node ∷ []) ≡ loaded (rs ++ one ∷ [])
  unfolding load_entries
  load_entries-snoc [] rs node one e h =
      rw (e, load_entries) (ap (λ l. loaded (l ++ one ∷ [])) (loaded-injective [] rs h))
  load_entries-snoc (n ∷ nodes) rs node one e h = elim (Loaded-cases (unmarshal_yaml codec n)) [
    | inl (r, m) ↦
        rw (m, load_entries)
          (and_rest-snoc r one (load_entries codec nodes) (load_entries codec (nodes ++ node ∷ []))
            rs (λ ts. load_entries-snoc nodes ts node one e) (rw (m, load_entries) at h))
    | inr (inl m) ↦ let h' = rw (m, load_entries) at h in cc h'
    | inr (inr m) ↦ let h' = rw (m, load_entries) at h in cc h'
  ]

  read_text :
      (t : List ℕ) (nodes : List Node) (rs : List Recorded)
      → codec.parse t ≡ some nodes
      → load_entries codec nodes ≡ loaded rs
      → record_to_file codec (entry_text t) ≡ started (yaml_recorder (some rs) rs)
  unfolding record_to_file
  read_text t nodes rs p h = rw (record_to_file, p, h) refl

  -- A restart after any calls of Record, one after another, none of which left a part of an entry, on a
  -- recorder whose file was read: it reads what the recorder has in memory, the entries that were read
  -- and then the new ones. The file is a block sequence at first; a new entry that is appended to one leaves
  -- one and is read back as the map that was written, the local ID in it as the one that was given.
  pub restart_reads_back :
      (IsBlock : List ℕ → Type 0) (law : IsCodec IsBlock) (cs : List Call) (t : List ℕ)
      (nodes : List Node) (rs : List Recorded)
      → all_whole cs ≡ true
      → IsBlock t
      → codec.parse t ≡ some nodes
      → load_entries codec nodes ≡ loaded rs
      → (new : List Recorded) × (run_records cs (yaml_recorder (some rs) rs)
          ≡ yaml_recorder (some (rs ++ new)) (rs ++ new))
        × (record_to_file codec (entry_text (t ++ printed new))
            ≡ started (yaml_recorder (some (rs ++ new)) (rs ++ new)))
  unfolding run_records printed
  restart_reads_back IsBlock law [] t nodes rs whole block p h =
      ([], rw (append-nil rs) refl, rw (append-nil t, append-nil rs) (read_text t nodes rs p h))
  restart_reads_back IsBlock law (c ∷ cs) t nodes rs whole block p h =
      elim (Bool-cases (is_whole c.answers.writes)) [
        | inr w ↦ let clash = rw w at whole in cc clash
        | inl w ↦ elim (record_step c rs w) [
          | inl e ↦
              let (new, run, load) =
                restart_reads_back IsBlock law cs t nodes rs (rw w at whole) block p h in
              (new, rw (e, run_records) run, load)
          | inr e ↦
              let one : Recorded = record { local_id = c.id; first_seen = some (pos c.now) } in
              let text : List ℕ = codec.print (fields_of codec one) in
              let (node, parsed, is_map) = law.appends t nodes c.id c.now block p in
              let (new, run, load) =
                restart_reads_back IsBlock law cs (t ++ text) (nodes ++ node ∷ []) (rs ++ one ∷ [])
                  (rw w at whole) (law.stays t c.id c.now block) parsed
                  (load_entries-snoc nodes rs node one
                    (unmarshal_yaml-new node c.id (pos c.now) (law.eui_back c.id) is_map) h) in
              let assoc : (rs ++ one ∷ []) ++ new ≡ rs ++ one ∷ new =
                append_assoc rs (one ∷ []) new in
              (
                one ∷ new,
                rw (e, run_records) (run ∙ ap (λ l. yaml_recorder (some l) l) assoc),
                ap (λ u. record_to_file codec (entry_text u))
                      (sym (append_assoc t text (printed new)))
                    ∙ load
                    ∙ ap (λ l. started (yaml_recorder (some l) l)) assoc,
              )
        ]
      ]
