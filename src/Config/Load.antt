-- ===== src/Config/Load.antt =====
-- The loading of the forwarder's configuration (mustLoadConfig of forwarder/config.go).
use packet_handling.Base.{
  ◌>>=◌, String, Bool, true, false, Option, none, some, List, [], ◌∷◌, if◌then◌else◌,
}
use packet_handling.Route.{Router}
use packet_handling.Registry.OnChain.{OnChainConfig}
use packet_handling.Config.{Config, Polygon, get_net_config}
use text.Mathlib.Text.{◌==◌ as str_eq}

-- The configuration file: not given, failing to be read or to be decoded, or decoded over the default.
pub data ConfigFile (Bitmap : Type 0) : Type 0 where
  no_file unreadable undecodable : ConfigFile Bitmap
  decoded : (Config Bitmap → Config Bitmap) → ConfigFile Bitmap

-- The flags of the command, the band plans, and whether the database opens.
pub record Start (Bitmap : Type 0) : Type 0 where
  pub net : String
  pub file : ConfigFile Bitmap
  pub plan_flag : String
  pub invalid_plan : String
  pub band_name : String → Option String
  pub database_opens : Bool

-- How `mustLoadConfig` ends: with a configuration and whether the database is open, by `logrus.Fatal`,
-- or in a panic.
pub data Loading (Bitmap : Type 0) : Type 0 where
  ready : Config Bitmap → Bool → Loading Bitmap
  fatal crashed : Loading Bitmap

abbrev pub is_on : Option Bool → Bool
is_on none = false
is_on (some b) = b

-- The endpoint, confirmations and chain of the registry on the chain are those of Polygon.
unfoldable pub of_polygon : Polygon → Option OnChainConfig → Option OnChainConfig
of_polygon p none = none
of_polygon p (some chain) =
    some (record chain {
      endpoint = p.endpoint;
      confirmation = p.confirmations;
      chain_id = p.chain_id;
    })

module _ {Bitmap : Type 0} where
  unfoldable pub with_file : String → ConfigFile Bitmap → Config Bitmap → Option (Config Bitmap)
  with_file net no_file cfg = if str_eq net "" then none else some cfg
  with_file net unreadable cfg = none
  with_file net undecodable cfg = none
  with_file net (decoded f) cfg = some (f cfg)

  unfoldable pub with_plan :
      String → (String → Option String) → Config Bitmap → Option (Config Bitmap)
  with_plan flag band_name cfg = if str_eq flag "" then some cfg else elim (band_name flag) [
    | none ↦ none
    | some name ↦ some (record cfg { store = record (cfg.store) { default_plan = name } })
  ]

  -- The part up to the test for Polygon; `none` is `logrus.Fatal`.
  unfoldable pub read_config : Start Bitmap → Option (Config Bitmap × Polygon)
  read_config start = do
    default ← get_net_config start.invalid_plan start.net
    filed ← with_file start.net start.file default
    cfg ← with_plan start.plan_flag start.band_name filed
    polygon ← cfg.polygon
    some (cfg, polygon)

  -- `useDB`; `none` is the nil `RecordUnknown` that is read where the store has no database.
  unfoldable pub uses_database : Config Bitmap → Option Bool
  uses_database cfg =
      if is_on cfg.store.postgresql
      then some true
      else elim cfg.record_unknown [ none ↦ none | some r ↦ some (is_on r.postgresql) ]

  -- The loop over the default routers; `none` is a nil pointer.
  unfoldable pub flag_defaults :
      List (Option (Router Bitmap)) → Option (List (Option (Router Bitmap)))
  flag_defaults [] = some []
  flag_defaults (none ∷ rs) = none
  flag_defaults (some r ∷ rs) = elim (flag_defaults rs) [
    | none ↦ none
    | some flagged ↦ some (some (record r { is_default = true }) ∷ flagged)
  ]

  -- The last two parts: the default routers, and Polygon for the registry
  unfoldable pub complete : Config Bitmap → Polygon → Bool → Loading Bitmap
  complete cfg p database = elim (flag_defaults cfg.default_routers) [
    | none ↦ crashed
    | some routers ↦
        ready
          (record cfg {
            default_routers = routers;
            registry = record (cfg.registry) { chain = of_polygon p cfg.registry.chain };
          })
          database
  ]

  -- `mustLoadConfig`
  unfoldable pub must_load_config : Start Bitmap → Loading Bitmap
  must_load_config start = elim (read_config start) [
    | none ↦ fatal
    | some (cfg, p) ↦ elim (uses_database cfg) [
      | none ↦ crashed
      | some false ↦ complete cfg p false
      | some true ↦
          if cfg.database
          then if start.database_opens then complete cfg p true else fatal
          else fatal
    ]
  ]
