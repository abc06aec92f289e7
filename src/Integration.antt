-- ===== src/Integration.antt =====
-- The integration of the router: router/integrations.go, and the defaults of router/config.go. The
-- ChirpStack integration (Setup) is a parameter; the configuration that it is given is spelled out.
pub mod Auth
mod Tests
use packet_handling.Base.{
  ℕ, String, Bool, true, false, Option, none, some, List, if◌then◌else◌, ◌==◌,
}
use packet_handling.Base.Int.{ℤ}
use text.Mathlib.Text.{◌==◌ as str_eq}

-- The generic authentication, the same fields in both configurations
pub record Generic : Type 0 where
  pub server : String
  pub servers : List String
  pub username : String
  pub password : String
  pub ca_cert : String
  pub tls_cert : String
  pub tls_key : String
  pub qos : ℕ
  pub clean_session : Bool
  pub client_id : String

-- `Auth`: for the two kinds that are refused, whether they are configured
pub record AuthConfig : Type 0 where
  pub generic : Option Generic
  pub gcp_cloud_iot_core : Bool
  pub azure_iot_hub : Bool

-- `Integration.MQTT` of the router's configuration; durations are in nanoseconds.
pub record MqttConfig : Type 0 where
  pub event_topic_template : String
  pub command_topic_template : String
  pub state_topic_template : String
  pub state_retained : Bool
  pub keep_alive : ℤ
  pub max_reconnect_interval : ℤ
  pub max_token_wait : ℤ
  pub auth : Option AuthConfig

-- The integration part of the ChirpStack configuration, as far as it is assigned
pub record Chirp : Type 0 where
  pub marshaler : String
  pub event_topic_template : String
  pub command_topic_template : String
  pub state_topic_template : String
  pub state_retained : Bool
  pub keep_alive : ℤ
  pub max_reconnect_interval : ℤ
  pub max_token_wait : ℤ
  pub auth_type : String
  pub generic : Generic

-- An integration set up with a configuration, an error, or the panic on a nil pointer
pub data Built : Type 0 where
  set_up : Chirp → Built
  refused panicked : Built

abbrev pub or_template : String → String → String
or_template d t = if str_eq t "" then d else t

-- The assignments after the two kinds of authentication that are refused
unfoldable pub chirp_of : String → MqttConfig → Generic → Chirp
chirp_of marshaler cfg generic = record {
  marshaler = marshaler;
  event_topic_template =
      or_template "eu868/gateway/{{ .GatewayID }}/event/{{ .EventType }}" cfg.event_topic_template;
  command_topic_template =
      or_template "eu868/gateway/{{ .GatewayID }}/command/#" cfg.command_topic_template;
  state_topic_template =
      or_template "eu868/gateway/{{ .GatewayID }}/state/{{ .StateType }}" cfg.state_topic_template;
  state_retained = cfg.state_retained;
  keep_alive = cfg.keep_alive;
  max_reconnect_interval = cfg.max_reconnect_interval;
  max_token_wait = cfg.max_token_wait;
  auth_type = "generic";
  generic = generic;
}

-- `buildIntegrationsForMQTT`, by whether a configuration sets up. The last assignment reads the
-- generic authentication whether or not there is one.
unfoldable pub build_mqtt : (Chirp → Bool) → String → MqttConfig → Built
build_mqtt setup marshaler cfg = elim cfg.auth [
  | none ↦ panicked
  | some auth ↦
      if auth.gcp_cloud_iot_core
      then refused
      else if auth.azure_iot_hub
      then refused
      else elim auth.generic [
        | none ↦ panicked
        | some generic ↦
            if setup (chirp_of marshaler cfg generic)
            then set_up (chirp_of marshaler cfg generic)
            else refused
      ]
]

-- `buildIntegrations`
unfoldable pub build_integrations : (Chirp → Bool) → String → Option MqttConfig → Built
build_integrations setup marshaler none = refused
build_integrations setup marshaler (some cfg) = build_mqtt setup marshaler cfg

-- `ForwarderListenerAddress`, as host and port
unfoldable pub listener_address : String → ℕ → String × ℕ
listener_address host port =
    (if str_eq host "" then "0.0.0.0" else host, if port == 0 then 8080 else port)
