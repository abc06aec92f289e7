-- ===== src/Integration/Auth.antt =====
-- Which configurations give the router an integration (router/integrations.go).
use packet_handling.Base.{
  ◌≡◌, refl, sym, ◌↔◌, ◌⊎◌, ◌≢◌, subst, inl, inr, String, Bool, true, false, Option, none, some,
  Option-cases, Bool-cases, if◌then◌else◌,
}
use mathlib.Core.Option.{some-injective}
use packet_handling.Integration.{
  AuthConfig, MqttConfig, Chirp, set_up, refused, panicked, build_mqtt, build_integrations,
}

-- A nil pointer is read.
abbrev pub ReadsNil : MqttConfig → Type 0
ReadsNil cfg =
    (cfg.auth ≡ none)
    ⊎ ((auth : AuthConfig) × (cfg.auth ≡ some auth)
        × (auth.generic ≡ none)
        × (auth.gcp_cloud_iot_core ≡ false)
        × (auth.azure_iot_hub ≡ false))

not_panicked : (b : Bool) (c : Chirp) → (if b then set_up c else refused) ≢ panicked
not_panicked true c h = cc h
not_panicked false c h = cc h

build_mqtt-panicked :
    (setup : Chirp → Bool) (marshaler : String) (cfg : MqttConfig)
    → build_mqtt setup marshaler cfg ≡ panicked
    → ReadsNil cfg
unfolding build_mqtt
build_mqtt-panicked setup marshaler cfg h = elim (Option-cases cfg.auth) [
  | inl n ↦ inl n
  | inr (auth, n) ↦ elim (Bool-cases auth.gcp_cloud_iot_core) [
    | inl g ↦ let h' = rw (n, build_mqtt, g) at h in cc h'
    | inr g ↦ elim (Bool-cases auth.azure_iot_hub) [
      | inl a ↦ let h' = rw (n, build_mqtt, g, a) at h in cc h'
      | inr a ↦ elim (Option-cases auth.generic) [
        | inl e ↦ inr (auth, n, e, g, a)
        | inr (generic, e) ↦ absurd (not_panicked _ _ (rw (n, build_mqtt, g, a, e) at h))
      ]
    ]
  ]
]

ReadsNil-panics :
    (setup : Chirp → Bool) (marshaler : String) (cfg : MqttConfig)
    → ReadsNil cfg
    → build_mqtt setup marshaler cfg ≡ panicked
unfolding build_mqtt
ReadsNil-panics setup marshaler cfg (inl n) = rw (build_mqtt, n) refl
ReadsNil-panics setup marshaler cfg (inr (auth, n, e, g, a)) = rw (build_mqtt, n, g, a, e) refl

-- Building an integration panics exactly if MQTT is configured without authentication, or with
-- authentication of none of the three kinds.
pub build_integrations-panicked :
    (setup : Chirp → Bool) (marshaler : String) (mqtt : Option MqttConfig)
    → (build_integrations setup marshaler mqtt ≡ panicked)
      ↔ ((cfg : MqttConfig) × (mqtt ≡ some cfg) × ReadsNil cfg)
unfolding build_integrations
build_integrations-panicked setup marshaler none =
    (λ h. absurd (cc h), λ (cfg, e, _). absurd (cc e))
build_integrations-panicked setup marshaler (some cfg) = (
  λ h. (cfg, refl, build_mqtt-panicked setup marshaler cfg h),
  λ (c, e, r). ReadsNil-panics setup marshaler cfg (subst ReadsNil (sym (some-injective _ _ e)) r),
)
