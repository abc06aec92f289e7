-- ===== src/Config/Ready.antt =====
-- What the forwarder starts with (mustLoadConfig of forwarder/config.go).
use packet_handling.Base.{
  ◌≡◌, refl, sym, ap, ◌∙◌, Bool, true, false, Option, none, some, List, [], ◌∷◌, map, Option-cases,
  inl, inr, arith, ◌⊎◌, String, Bool-cases, bind_some, if◌then◌else◌,
}
use mathlib.Core.Option.{some-injective}
use packet_handling.Route.{Router}
use packet_handling.Registry.OnChain.{OnChainConfig}
use packet_handling.Config.{Config, Polygon, get_net_config}
use packet_handling.UnknownGateways.Yaml.{RecordUnknownConfig}
use text.Mathlib.Text.{◌==◌ as str_eq}
use packet_handling.Config.Load.{
  ConfigFile, no_file, unreadable, undecodable, decoded, is_on, with_file, with_plan, Start,
  Loading, ready, fatal, read_config, uses_database, flag_defaults, of_polygon, complete,
  must_load_config,
}

abbrev pub flagged : {Bitmap : Type 0} → Router Bitmap → Router Bitmap
flagged r = record r { is_default = true }

-- A registry on the chain with the endpoint, confirmations and chain of Polygon
abbrev pub on_net : Polygon → Option OnChainConfig → Option OnChainConfig
on_net p none = none
on_net p (some chain) =
    some (record chain {
      endpoint = p.endpoint;
      confirmation = p.confirmations;
      chain_id = p.chain_id;
    })

of_polygon-on_net : (p : Polygon) (o : Option OnChainConfig) → of_polygon p o ≡ on_net p o
unfolding of_polygon
of_polygon-on_net p none = refl
of_polygon-on_net p (some old) = refl

module _ {Bitmap : Type 0} where
  ready-injective : (a b : Config Bitmap) (x y : Bool) → ready a x ≡ ready b y → (a ≡ b) × (x ≡ y)
  ready-injective a b x y h = (
    ap (λ (o : Loading Bitmap). elim o [ ready c d ↦ c | _ ↦ a ]) h,
    ap (λ (o : Loading Bitmap). elim o [ ready c d ↦ d | _ ↦ x ]) h,
  )

  both_on :
      (a b : Bool) (x : Loading Bitmap) (c : Config Bitmap) (db : Bool)
      → (if a then (if b then x else fatal) else fatal) ≡ ready c db
      → (a ≡ true) × (b ≡ true) × (x ≡ ready c db)
  both_on true true x c db h = (refl, refl, h)
  both_on true false x c db h = cc h
  both_on false b x c db h = cc h

  flag_defaults-some :
      (rs flags : List (Option (Router Bitmap)))
      → flag_defaults rs ≡ some flags
      → (routers : List (Router Bitmap)) × (rs ≡ map some routers)
        × (flags ≡ map (λ r. some (flagged r)) routers)
  unfolding flag_defaults
  flag_defaults-some [] flags h = ([], refl, cc h)
  flag_defaults-some (none ∷ rs) flags h = cc h
  flag_defaults-some (some r ∷ rs) flags h = elim (Option-cases (flag_defaults rs)) [
    | inl n ↦ let h' = rw (n, flag_defaults) at h in cc h'
    | inr (rest, n) ↦
        let h' = rw (n, flag_defaults) at h in
        let (routers, e, f) = flag_defaults-some rs rest n in
        (
          r ∷ routers,
          ap (λ l. some r ∷ l) e,
          sym (some-injective _ _ h') ∙ ap (λ l. some (flagged r) ∷ l) f,
        )
  ]

  -- The configuration with the file decoded over the net's default; without a file, a net is named.
  abbrev pub IsFiled : String → ConfigFile Bitmap → Config Bitmap → Config Bitmap → Type 0
  IsFiled net no_file default filed = (str_eq net "" ≡ false) × (filed ≡ default)
  IsFiled net unreadable default filed = ⊥
  IsFiled net undecodable default filed = ⊥
  IsFiled net (decoded f) default filed = filed ≡ f default

  -- The default plan: the flag's band if the flag is given, and the configured one if not.
  abbrev pub IsPlanned : String → (String → Option String) → Config Bitmap → String → Type 0
  IsPlanned flag band_name filed plan =
      ((str_eq flag "" ≡ true) × (plan ≡ filed.store.default_plan))
      ⊎ ((str_eq flag "" ≡ false) × (band_name flag ≡ some plan))

  -- What a configuration that is ready has of the net's default, the file, the flags and the database.
  pub record IsReady (start : Start Bitmap) (c : Config Bitmap) (database : Bool) : Type 0 where
    pub default : Config Bitmap
    pub filed : Config Bitmap
    pub polygon : Polygon
    pub routers : List (Router Bitmap)
    pub of_net : get_net_config start.invalid_plan start.net ≡ some default
    pub of_file : IsFiled start.net start.file default filed
    pub plan : String
    pub planned : IsPlanned start.plan_flag start.band_name filed plan
    pub whole : c ≡ record filed {
      store = record (filed.store) { default_plan = plan };
      default_routers = map (λ r. some (flagged r)) routers;
      registry = record (filed.registry) { chain = on_net polygon filed.registry.chain };
    }
    pub configured : filed.default_routers ≡ map some routers
    pub flags : c.default_routers ≡ map (λ r. some (flagged r)) routers
    pub filed_polygon : filed.polygon ≡ some polygon
    pub has_polygon : c.polygon ≡ some polygon
    pub by_store : is_on c.store.postgresql ≡ true → database ≡ true
    pub by_recorder :
        is_on c.store.postgresql ≡ false
        → (r : RecordUnknownConfig) × (c.record_unknown ≡ some r) × (database ≡ is_on r.postgresql)
    pub opened : database ≡ true → (c.database ≡ true) × (start.database_opens ≡ true)

  with_file-IsFiled :
      (net : String) (file : ConfigFile Bitmap) (default filed : Config Bitmap)
      → with_file net file default ≡ some filed
      → IsFiled net file default filed
  unfolding with_file
  with_file-IsFiled net no_file default filed h = elim (Bool-cases (str_eq net "")) [
    | inl e ↦ let h' = rw (e, with_file) at h in absurd (cc h')
    | inr e ↦ (e, sym (some-injective _ _ (rw (e, with_file) at h)))
  ]
  with_file-IsFiled net unreadable default filed h = cc h
  with_file-IsFiled net undecodable default filed h = cc h
  with_file-IsFiled net (decoded f) default filed h = sym (some-injective _ _ h)

  -- The configuration with another default plan
  abbrev replanned : Config Bitmap → String → Config Bitmap
  replanned filed plan = record filed { store = record (filed.store) { default_plan = plan } }

  with_plan-IsPlanned :
      (flag : String) (band_name : String → Option String) (filed cfg : Config Bitmap)
      → with_plan flag band_name filed ≡ some cfg
      → (plan : String) × (cfg ≡ replanned filed plan) × IsPlanned flag band_name filed plan
  unfolding with_plan
  with_plan-IsPlanned flag band_name filed cfg h = elim (Bool-cases (str_eq flag "")) [
    | inl e ↦
        (filed.store.default_plan, sym (some-injective _ _ (rw (e, with_plan) at h)), inl (e, refl))
    | inr e ↦ elim (Option-cases (band_name flag)) [
      | inl n ↦ let h' = rw (e, n, with_plan) at h in absurd (cc h')
      | inr (plan, n) ↦ (plan, sym (some-injective _ _ (rw (e, n, with_plan) at h)), inr (e, n))
    ]
  ]

  -- The parts of `read_config`
  record IsRead (start : Start Bitmap) (cfg : Config Bitmap) (p : Polygon) : Type 0 where
    default : Config Bitmap
    filed : Config Bitmap
    plan : String
    of_net : get_net_config start.invalid_plan start.net ≡ some default
    of_file : IsFiled start.net start.file default filed
    planned : IsPlanned start.plan_flag start.band_name filed plan
    same : cfg ≡ replanned filed plan
    has_polygon : cfg.polygon ≡ some p

  read_config-IsRead :
      (start : Start Bitmap) (cfg : Config Bitmap) (p : Polygon)
      → read_config start ≡ some (cfg, p)
      → IsRead start cfg p
  unfolding read_config
  read_config-IsRead start cfg p h =
      let (default, n, h1) = bind_some (get_net_config start.invalid_plan start.net) _ _ h in
      let (filed, f, h2) = bind_some (with_file start.net start.file default) _ _ h1 in
      let (planned, w, h3) = bind_some (with_plan start.plan_flag start.band_name filed) _ _ h2 in
      let (q, g, h4) = bind_some planned.polygon _ _ h3 in
      let same = some-injective _ _ h4 in
      let is_cfg : planned ≡ cfg = ap (λ x. x.0) same in
      let is_p : q ≡ p = ap (λ x. x.1) same in
      let (plan, e, is_plan) =
        with_plan-IsPlanned start.plan_flag start.band_name filed planned w in
      record {
        default = default;
        filed = filed;
        plan = plan;
        of_net = n;
        of_file = with_file-IsFiled start.net start.file default filed f;
        planned = is_plan;
        same = sym is_cfg ∙ e;
        has_polygon = ap (λ (x : Config Bitmap). x.polygon) (sym is_cfg) ∙ g ∙ ap some is_p;
      }

  complete-ready :
      (cfg : Config Bitmap) (p : Polygon) (database : Bool) (c : Config Bitmap) (db : Bool)
      → complete cfg p database ≡ ready c db
      → (database ≡ db)
        × (routers : List (Router Bitmap)) × (cfg.default_routers ≡ map some routers)
        × (c ≡ record cfg {
          default_routers = map (λ r. some (flagged r)) routers;
          registry = record (cfg.registry) { chain = of_polygon p cfg.registry.chain };
        })
  unfolding complete
  complete-ready cfg p database c db h = elim (Option-cases (flag_defaults cfg.default_routers)) [
    | inl n ↦ let h' = rw (n, complete) at h in cc h'
    | inr (flags, n) ↦
        let h' = rw (n, complete) at h in
        let (routers, e, f) = flag_defaults-some cfg.default_routers flags n in
        let (same, db_same) = ready-injective _ c database db h' in
        (db_same, routers, e, sym same ∙ rw f refl)
  ]

  recorder_on :
      (c : Config Bitmap) (db : Bool)
      → uses_database c ≡ some db
      → (is_on c.store.postgresql ≡ true → db ≡ true)
        × (is_on c.store.postgresql ≡ false
            → (r : RecordUnknownConfig) × (c.record_unknown ≡ some r) × (db ≡ is_on r.postgresql))
  unfolding uses_database
  recorder_on c db u = (
    λ e. sym (some-injective _ _ (rw (e, uses_database) at u)),
    λ e. elim (Option-cases c.record_unknown) [
      | inl n ↦ let u' = rw (e, n, uses_database) at u in absurd (cc u')
      | inr (r, n) ↦ (r, n, sym (some-injective _ _ (rw (e, n, uses_database) at u)))
    ],
  )

  ready_of :
      (start : Start Bitmap) (cfg : Config Bitmap) (p : Polygon) (database : Bool)
      (c : Config Bitmap) (db : Bool)
      → read_config start ≡ some (cfg, p)
      → uses_database cfg ≡ some database
      → (database ≡ true → (cfg.database ≡ true) × (start.database_opens ≡ true))
      → complete cfg p database ≡ ready c db
      → IsReady start c db
  unfolding uses_database
  ready_of start cfg p database c db e u o h =
      let (same, routers, before, is_c) = complete-ready cfg p database c db h in
      let r = read_config-IsRead start cfg p e in
      let uses = recorder_on c db (ap uses_database is_c ∙ u ∙ ap some same) in
      record {
        default = r.default;
        filed = r.filed;
        polygon = p;
        routers = routers;
        of_net = r.of_net;
        of_file = r.of_file;
        plan = r.plan;
        planned = r.planned;
        whole =
            is_c
            ∙ ap
                (λ (x : Config Bitmap). record x {
                  default_routers = map (λ r. some (flagged r)) routers;
                  registry = record (x.registry) { chain = of_polygon p x.registry.chain };
                })
                r.same
            ∙ rw (of_polygon-on_net p r.filed.registry.chain) refl;
        configured = ap (λ (x : Config Bitmap). x.default_routers) (sym r.same) ∙ before;
        flags = ap (λ (x : Config Bitmap). x.default_routers) is_c;
        filed_polygon = ap (λ (x : Config Bitmap). x.polygon) (sym r.same) ∙ r.has_polygon;
        has_polygon = ap (λ (x : Config Bitmap). x.polygon) is_c ∙ r.has_polygon;
        by_store = uses.0;
        by_recorder = uses.1;
        opened = λ d.
            let (configured, opens) = o (same ∙ d) in
            (ap (λ (x : Config Bitmap). x.database) is_c ∙ configured, opens);
      }

  -- Where the forwarder gets a configuration, it is the net's default with the file decoded over it, but
  -- for three parts: the default plan is the band of the flag, if the flag is given, the default routers
  -- are marked as default, and a registry on the chain gets the endpoint, confirmations and chain of
  -- Polygon, which is configured. The database is open if the store uses it; where the
  -- store does not, a recorder of unknown gateways is configured and the database is open exactly if
  -- that uses it. An open database was configured and could be opened.
  pub must_load_config-IsReady :
      (start : Start Bitmap) (c : Config Bitmap) (db : Bool)
      → must_load_config start ≡ ready c db
      → IsReady start c db
  unfolding must_load_config
  must_load_config-IsReady start c db h = elim (Option-cases (read_config start)) [
    | inl n ↦ let h' = rw (n, must_load_config) at h in cc h'
    | inr ((cfg, p), n) ↦ elim (Option-cases (uses_database cfg)) [
      | inl u ↦ let h' = rw (n, u, must_load_config) at h in cc h'
      | inr (false, u) ↦
          ready_of start cfg p false c db n u (λ d. absurd (ground (arith, d)))
            (rw (n, u, must_load_config) at h)
      | inr (true, u) ↦
          let (d, o, rest) =
            both_on cfg.database start.database_opens (complete cfg p true) c db
              (rw (n, u, must_load_config) at h) in
          ready_of start cfg p true c db n u (λ _. (d, o)) rest
    ]
  ]
