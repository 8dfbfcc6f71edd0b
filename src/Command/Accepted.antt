-- ===== src/Command/Accepted.antt =====
-- cmd/nexus-proxy/main.go and client.go: what the command accepts, the SDK accepts.
use dappnode_nexus_sdk.Prelude.{
  zero, suc, true, false, not, Option, ◌==◌, is_empty, ◌≡◌, refl, ap, arith, Bool-cases, inl, inr,
  passed_not,
}
use mathlib.Core.Path.{subst}
use dappnode_nexus_sdk.Prelude.Bytes.{Bytes}
use dappnode_nexus_sdk.Prelude.Result.{Result, ok, err, reject_then, bind_then, ok-injective}
use dappnode_nexus_sdk.Prelude.Time.{Duration, pos, negsuc}
use dappnode_nexus_sdk.Url.{
  Url, UrlLaws, OriginError, normalize_origin, normalize_origin_idempotent,
}
use dappnode_nexus_sdk.Sdk.Config.{
  Config, validate_config, normalize_gateway_url, is_set, is_positive, is_negative, timeout_of,
  sources, interval_is_negative,
}
use dappnode_nexus_sdk.Command.{
  Flags, CommandConfig, positional, not_one_source, bad_refresh, bad_timeout, Net, as_gateway,
  as_listen, same_bool, config_of, parse_flags, validate_listen_address, sdk_config,
}

as_gateway-ok : (r : Result OriginError Bytes) (o : Bytes) → as_gateway r ≡ ok o → r ≡ ok o
as_gateway-ok (ok x) o h = ap ok (ok-injective h)
as_gateway-ok (err e) o h = absurd (cc)

positive_timeout : (d : Duration) → is_positive d ≡ true → timeout_of d ≡ d
positive_timeout (pos zero) h = absurd (cc)
positive_timeout (pos (suc n)) h = refl
positive_timeout (negsuc n) h = absurd (cc)

positive-nonnegative : (d : Duration) → is_positive d ≡ true → is_negative d ≡ false
positive-nonnegative (pos n) h = refl
positive-nonnegative (negsuc n) h = absurd (cc)

-- One of the policy file and the updates, as run passes them on.
one_source :
    (origin : Bytes) (f : Flags)
    → same_bool (is_set f.trust_policy) f.policy_updates ≡ false
    → (sources (sdk_config (config_of origin f)) == 1) ≡ true
one_source origin f h = elim (Bool-cases (is_set f.trust_policy)) [
  | inl s ↦ elim (Bool-cases f.policy_updates) [
    | inl u ↦ absurd (ground arith)
    | inr u ↦ rw (s, u) refl
  ]
  | inr s ↦ elim (Bool-cases f.policy_updates) [
    | inl u ↦ rw (s, u) refl
    | inr u ↦ absurd (ground arith)
  ]
]

interval_allowed :
    (origin : Bytes) (f : Flags)
    → is_positive f.policy_refresh ≡ true
    → interval_is_negative (sdk_config (config_of origin f)).trust_policy_updates ≡ false
interval_allowed origin f h = elim (Bool-cases f.policy_updates) [
  | inl u ↦ rw u (positive-nonnegative f.policy_refresh h)
  | inr u ↦ rw u refl
]

module _ {Ip : Type 0} (net : Net Ip) (parse : Bytes → Option Url) (to_string : Url → Bytes)
    (laws : UrlLaws parse to_string) where
  validate_parts :
      (c : Config) (origin : Bytes)
      → normalize_origin parse to_string c.gateway_url ≡ ok origin
      → (sources c == 1) ≡ true
      → interval_is_negative c.trust_policy_updates ≡ false
      → is_positive c.attestation_timeout ≡ true
      → validate_config parse to_string c ≡ ok (origin, c.attestation_timeout)
  unfolding validate_config normalize_gateway_url
  validate_parts c origin h s r t =
      rw
        (
          h,
          s,
          r,
          positive_timeout c.attestation_timeout t,
          positive-nonnegative c.attestation_timeout t,
        )
        refl

  -- A command line that parseFlags accepts makes a Config that validateConfig accepts, with the
  -- origin and the timeout that the command shows.
  pub parse_flags-validate_config :
      (f : Flags) (c : CommandConfig)
      → parse_flags net parse to_string f ≡ ok c
      → validate_config parse to_string (sdk_config c)
        ≡ ok (c.gateway_origin, c.attestation_timeout)
  unfolding parse_flags
  parse_flags-validate_config f c h = reject_then (not (is_empty f.rest)) positional _ h λ _ h1.
      bind_then (as_gateway (normalize_origin parse to_string f.gateway_url)) _ h1 λ origin o h2.
        reject_then (same_bool (is_set f.trust_policy) f.policy_updates) not_one_source _ h2 λ s h3.
          reject_then (not (is_positive f.policy_refresh)) bad_refresh _ h3 λ r h4.
            bind_then (as_listen (validate_listen_address net f.listen f.listen_scope)) _ h4
              λ _ l h5.
                reject_then (not (is_positive f.attestation_timeout)) bad_timeout _ h5 λ t h6.
                  let origin_is =
                    as_gateway-ok (normalize_origin parse to_string f.gateway_url) origin o in
                  subst
                    (λ k.
                      validate_config parse to_string (sdk_config k)
                      ≡ ok (k.gateway_origin, k.attestation_timeout))
                    (ok-injective h6)
                    (validate_parts (sdk_config (config_of origin f)) origin
                      (normalize_origin_idempotent parse to_string laws f.gateway_url origin
                        origin_is)
                      (one_source origin f s) (interval_allowed origin f (passed_not r))
                      (passed_not t))
