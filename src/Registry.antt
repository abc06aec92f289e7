-- ===== src/Registry.antt =====
-- The gateway registry behind the ThingsIX API, with its cache: gateway/registry_thingsix_api.go and
-- `cachedData` of gateway/registry.go. The HTTP call is an input. An owner is a number, 0 the zero
-- address; a float32 is the number of its bits; a band is a number; an error is named by
-- where it comes from. A call reads the clock once.
pub mod Cache
pub mod OnChain
mod Tests
use packet_handling.Base.{
  ℕ, ◌+◌, ◌*◌, ◌^◌, String, Bool, true, false, not, ◌&&◌, ◌||◌, Option, none, some, ltb, ◌==◌,
  if◌then◌else◌,
}
use packet_handling.Base.Time.{minute}
use packet_handling.GoMap.{Map, lookup, insert}
use packet_handling.GatewayStore.{Details, RegistryEntry}

pub record Reply : Type 0 where
  pub altitude : ℕ
  pub version : ℕ
  pub antenna_gain : ℕ
  pub frequency_plan : ℕ
  pub location : String
  pub owner : ℕ

-- What the call of the API gives: the request or the call fails, or a status with a body; `none` is a
-- body that does not decode.
pub data Answer : Type 0 where
  no_request no_response not_found other_status : Answer
  status_ok : Option Reply → Answer

-- The errors: of the request, of the call, of the decoder, and the three that the registry makes itself,
-- "invalid API response", `ErrNotFound` and "unable to retrieve gateway details".
pub data Failure : Type 0 where
  request_error call_error decoder_error invalid_api_response err_not_found unable : Failure

-- What a call returns: an owner, a version and details, or an error.
pub data Reading : Type 0 where
  entry_read : RegistryEntry → Reading
  fails : Failure → Reading

-- `cachedData`
pub record CachedData : Type 0 where
  pub when : ℕ
  pub reading : Reading

-- What a call returns, whether it asked the API, and the cache after it.
pub record Outcome : Type 0 where
  pub result : Reading
  pub asked : Bool
  pub cache : Map CachedData

-- `cached.When.After(time.Now().Add(-10 * time.Minute))`
abbrev pub fresh : ℕ → CachedData → Bool
fresh now c = ltb now (c.when + 10 * minute)

module _ (gain_text : ℕ → String) where
  -- An onboarded gateway without a gain has no details yet.
  unfoldable pub entry_of_reply : Reply → RegistryEntry
  entry_of_reply r = record {
    owner = r.owner;
    version = r.version;
    details =
        if not (r.owner == 0) && (r.antenna_gain == 0 || r.antenna_gain == 2 ^ 31)
        then none
        else some (record {
          antenna_gain = some (gain_text r.antenna_gain);
          band = some r.frequency_plan;
          location = some r.location;
          altitude = some r.altitude;
        });
  }

  unfoldable pub ask : ℕ → ℕ → Answer → Map CachedData → Outcome
  ask id now no_request cache = record { result = fails request_error; asked = true; cache = cache }
  ask id now no_response cache = record {
    result = fails call_error;
    asked = true;
    cache = insert id (record { when = now; reading = fails call_error }) cache;
  }
  ask id now not_found cache = record { result = fails err_not_found; asked = true; cache = cache }
  ask id now other_status cache = record { result = fails unable; asked = true; cache = cache }
  ask id now (status_ok none) cache = record {
    result = fails invalid_api_response;
    asked = true;
    cache = insert id (record { when = now; reading = fails decoder_error }) cache;
  }
  ask id now (status_ok (some r)) cache = record {
    result = entry_read (entry_of_reply r);
    asked = true;
    cache = insert id (record { when = now; reading = entry_read (entry_of_reply r) }) cache;
  }

  -- `GatewayDetails`
  unfoldable pub gateway_details : ℕ → Bool → ℕ → Answer → Map CachedData → Outcome
  gateway_details id force now answer cache =
      let anew = ask id now answer cache in
      elim (lookup id cache) [
        | none ↦ anew
        | some c ↦
            if not force && fresh now c
            then record { result = c.reading; asked = false; cache = cache }
            else anew
      ]
