-- ===== src/Integration/Tests.antt =====
-- Tests of the integration (router/integrations.go).
use packet_handling.Base.{◌≡◌, refl, ◌↔◌, true, false, none, some, []}
use packet_handling.Base.Int.{pos}
use packet_handling.Integration.{
  Generic, MqttConfig, set_up, panicked, chirp_of, build_mqtt, build_integrations, listener_address,
}
use packet_handling.Integration.Auth.{ReadsNil, build_integrations-panicked}

abbrev no_auth : MqttConfig
no_auth = record {
  event_topic_template = "";
  command_topic_template = "command";
  state_topic_template = "";
  state_retained = true;
  keep_alive = pos 30;
  max_reconnect_interval = pos 60;
  max_token_wait = pos 1;
  auth = none;
}

abbrev generic : Generic
generic = record {
  server = "tcp://localhost:1883";
  servers = [];
  username = "u";
  password = "p";
  ca_cert = "";
  tls_cert = "";
  tls_key = "";
  qos = 0;
  clean_session = true;
  client_id = "";
}

abbrev with_generic : MqttConfig
with_generic = record no_auth {
  auth =
      some (record { generic = some generic; gcp_cloud_iot_core = false; azure_iot_hub = false });
}

generic_test :
    build_integrations (λ c. true) "json" (some with_generic)
    ≡ set_up (record {
      marshaler = "json";
      event_topic_template = "eu868/gateway/{{ .GatewayID }}/event/{{ .EventType }}";
      command_topic_template = "command";
      state_topic_template = "eu868/gateway/{{ .GatewayID }}/state/{{ .StateType }}";
      state_retained = true;
      keep_alive = pos 30;
      max_reconnect_interval = pos 60;
      max_token_wait = pos 1;
      auth_type = "generic";
      generic = generic;
    })
unfolding build_integrations build_mqtt chirp_of
generic_test = refl

listener_test : listener_address "" 0 ≡ ("0.0.0.0", 8080)
unfolding listener_address
listener_test = refl

build_integrations-panicked_example :
    (build_integrations (λ c. true) "json" (some no_auth) ≡ panicked)
    ↔ ((cfg : MqttConfig) × (some no_auth ≡ some cfg) × ReadsNil cfg)
build_integrations-panicked_example = build_integrations-panicked (λ c. true) "json" (some no_auth)
