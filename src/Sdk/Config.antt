-- ===== src/Sdk/Config.antt =====
-- client.go: Config with its checks. Durations are signed.
use dappnode_nexus_sdk.Prelude.{
  ℕ, zero, suc, ◌+◌, Bool, true, false, not, Option, none, some, ◌==◌, if◌then◌else◌,
}
use dappnode_nexus_sdk.Prelude.Bytes.{Bytes}
use dappnode_nexus_sdk.Prelude.Result.{Result, ok, err, reject, ◌>>=◌}
use dappnode_nexus_sdk.Prelude.Space.{trim_space}
use dappnode_nexus_sdk.Prelude.Time.{Duration, pos, negsuc}
use dappnode_nexus_sdk.Url.{Url, OriginError, normalize_origin, filled}

pub record TrustPolicyUpdates : Type 0 where
  pub repository : Bytes
  pub releases : ℕ
  pub cache_file : Bytes
  pub interval : Duration

-- The logger, which is told of errors, is left out.
pub record Config : Type 0 where
  pub gateway_url : Bytes
  pub trust_policy_file : Bytes
  pub trust_policy_json : Bytes
  pub attestation_timeout : Duration
  pub trust_policy_updates : Option TrustPolicyUpdates
  pub state_file : Bytes
  pub disable_verification_ui : Bool
  pub disable_model_catalog : Bool

pub data ConfigError : Type 0 where
  bad_origin : OriginError → ConfigError
  not_one_source negative_interval negative_timeout : ConfigError

abbrev pub default_attestation_timeout : Duration
default_attestation_timeout = pos 15000000000

abbrev pub default_policy_refresh_interval : Duration
default_policy_refresh_interval = pos 3600000000000

abbrev pub is_negative : Duration → Bool
is_negative (pos n) = false
is_negative (negsuc n) = true

abbrev pub is_positive : Duration → Bool
is_positive (pos zero) = false
is_positive (pos (suc n)) = true
is_positive (negsuc n) = false

abbrev pub count : Bool → ℕ
count true = 1
count false = 0

abbrev pub is_some {ℓ} : {A : Type ℓ} → Option A → Bool
is_some none = false
is_some (some a) = true

-- strings.TrimSpace(s) != ""
unfoldable pub is_set : Bytes → Bool
unfolding trim_space
is_set s = filled (trim_space s)

abbrev pub sources : Config → ℕ
sources c =
    count (is_set c.trust_policy_file)
    + (count (filled c.trust_policy_json) + count (is_some c.trust_policy_updates))

abbrev pub interval_is_negative : Option TrustPolicyUpdates → Bool
interval_is_negative none = false
interval_is_negative (some u) = is_negative u.interval

abbrev pub timeout_of : Duration → Duration
timeout_of (pos zero) = default_attestation_timeout
timeout_of d = d

abbrev pub as_config : Result OriginError Bytes → Result ConfigError Bytes
as_config (ok o) = ok o
as_config (err e) = err (bad_origin e)

unfoldable pub normalize_gateway_url :
    (Bytes → Option Url) → (Url → Bytes) → Bytes → Result ConfigError Bytes
normalize_gateway_url parse to_string raw = as_config (normalize_origin parse to_string raw)

-- validateConfig: the origin and the timeout.
unfoldable pub validate_config :
    (Bytes → Option Url) → (Url → Bytes) → Config → Result ConfigError (Bytes × Duration)
validate_config parse to_string c = do
  origin ← normalize_gateway_url parse to_string c.gateway_url
  reject (not (sources c == 1)) not_one_source (
      reject (interval_is_negative c.trust_policy_updates) negative_interval (
        reject (is_negative (timeout_of c.attestation_timeout)) negative_timeout
          (ok (origin, timeout_of c.attestation_timeout))))

-- refreshInterval
unfoldable pub refresh_interval : TrustPolicyUpdates → Duration
refresh_interval u = if is_positive u.interval then u.interval else default_policy_refresh_interval
