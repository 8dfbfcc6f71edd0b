-- ===== src/Release/Signed.antt =====
-- internal/release/manifest.go and verify.go: a signed release manifest, its validation, and the
-- policy that verified manifests give. Sigstore and encoding/json are parameters.
use dappnode_nexus_sdk.Prelude.{
  ℕ, ◌-◌, ◌*◌, ◌^◌, Bool, true, false, not, ◌&&◌, ◌||◌, Option, none, some, List, [], ◌∷◌, map, ltb,
  leb, ◌==◌, if◌then◌else◌, length, is_empty,
}
use dappnode_nexus_sdk.Prelude.Bytes.{Bytes, codes, bytes_eq}
use dappnode_nexus_sdk.Prelude.Result.{Result, ok, err, ◌>>=◌, reject}
use dappnode_nexus_sdk.Attestation.Policy.{
  all_hex, is_revision, ehbp_protocol, ehbp_suite, confidential_endpoint, gateway_workload,
  gateway_profile, e2ee_contract, parse_policy, Policy, PolicyError,
}
use dappnode_nexus_sdk.Attestation.Policy

abbrev pub manifest_schema_version : ℕ
manifest_schema_version = 2

abbrev pub measurements_schema_version : ℕ
measurements_schema_version = 2

abbrev pub environment : Bytes
environment = codes "prod"

abbrev pub max_manifest_bytes : ℕ
max_manifest_bytes = 64 * 2 ^ 10

abbrev pub pcr_hex_length : ℕ
pcr_hex_length = 96

abbrev pub certificate_identity : Bytes
certificate_identity =
    codes
      "https://github.com/dappnode/dappnode-nexus-gateway/.github/workflows/release-and-push.yml@refs/heads/main"

abbrev pub certificate_oidc_issuer : Bytes
certificate_oidc_issuer = codes "https://token.actions.githubusercontent.com"

abbrev pub source_repository : Bytes
source_repository = codes "https://github.com/dappnode/dappnode-nexus-gateway"

-- The nested structs are flat: `environment` is release.environment, and so on.
pub record Manifest : Type 0 where
  pub schema_version : ℕ
  pub version : Bytes
  pub environment : Bytes
  pub repository : Bytes
  pub revision : Bytes
  pub measurements_schema : ℕ
  pub pcr0 : Bytes
  pub pcr1 : Bytes
  pub pcr2 : Bytes
  pub protocol : Bytes
  pub suite : Bytes
  pub endpoint : Bytes

pub data ManifestError : Type 0 where
  not_configured missing empty_manifest too_large bundle_undecodable bad_identity : ManifestError
  bad_signature decode_failed bad_schema bad_measurements_schema bad_environment : ManifestError
  bad_version bad_revision bad_repository weak_encryption : ManifestError
  bad_pcr zero_pcr : ℕ → ManifestError

abbrev pub is_digit : ℕ → Bool
is_digit c = leb b'0' c && leb c b'9'

-- The rest of ^v[0-9]+\.[0-9]+\.[0-9]+$ from inside a number on: `dots` are still to come, and
-- `seen` is whether the number has a digit.
unfoldable pub version_tail : ℕ → Bool → Bytes → Bool
version_tail dots seen [] = seen && dots == 0
version_tail dots seen (c ∷ cs) =
    let in_number = version_tail dots true cs in
    let one_fewer = version_tail (dots - 1) false cs in
    if is_digit c then in_number else (c == b'.' && seen && not (dots == 0) && one_fewer)

unfoldable pub is_version : Bytes → Bool
unfolding version_tail
is_version [] = false
is_version (c ∷ cs) = c == b'v' && version_tail 2 false cs

unfoldable pub all_zero_hex : Bytes → Bool
all_zero_hex [] = true
all_zero_hex (c ∷ cs) = c == b'0' && all_zero_hex cs

abbrev pub is_pcr : Bytes → Bool
is_pcr s = length s == pcr_hex_length && all_hex s

-- One round of the loop over the three measurements.
abbrev pub check_pcr : ℕ → Bytes → Result ManifestError Unit → Result ManifestError Unit
check_pcr i value rest =
    reject (not (is_pcr value)) (bad_pcr i) (reject (all_zero_hex value) (zero_pcr i) rest)

unfoldable pub validate : Manifest → Result ManifestError Unit
unfolding is_version is_revision bytes_eq all_zero_hex all_hex
validate m = reject (not (m.schema_version == manifest_schema_version)) bad_schema (
    reject (not (m.measurements_schema == measurements_schema_version)) bad_measurements_schema (
      reject (not (bytes_eq m.environment environment)) bad_environment (
        reject (not (is_version m.version)) bad_version (
          reject (not (is_revision m.revision)) bad_revision
            (check_pcr 0 m.pcr0 (check_pcr 1 m.pcr1 (check_pcr 2 m.pcr2 (ok tt))))))))

abbrev pub validated : Manifest → Result ManifestError Manifest
validated m = do _ ← validate m; ok m

abbrev pub validate_decoded : Option Manifest → Result ManifestError Manifest
validate_decoded none = err decode_failed
validate_decoded (some m) = validated m

unfoldable pub parse_manifest : (Bytes → Option Manifest) → Bytes → Result ManifestError Manifest
parse_manifest decode text =
    reject (is_empty text) empty_manifest
      (reject (ltb max_manifest_bytes (length text)) too_large (validate_decoded (decode text)))

unfoldable pub check_encryption_floor : Manifest → Bool
unfolding bytes_eq
check_encryption_floor m =
    bytes_eq m.protocol ehbp_protocol
    && bytes_eq m.suite ehbp_suite
    && bytes_eq m.endpoint confidential_endpoint

-- Sigstore with the embedded root, and encoding/json at a Manifest. `signed issuer san bundle
-- artifact` is the verification at the options of NewVerifier.
pub record Sigstore (Bundle : Type 0) : Type 0 where
  pub decode_bundle : Bytes → Option Bundle
  pub signed : Bytes → Bytes → Bundle → Bytes → Bool
  pub decode_manifest : Bytes → Option Manifest

module _ {B : Type 0} (sig : Sigstore B) where
  abbrev pub check_claims : Manifest → Result ManifestError Manifest
  check_claims m =
      reject (not (bytes_eq m.repository source_repository)) bad_repository
        (reject (not (check_encryption_floor m)) weak_encryption (ok m))

  abbrev pub check_signature : Bytes → Option B → Result ManifestError Manifest
  check_signature manifest none = err bundle_undecodable
  check_signature manifest (some b) =
      reject (not (sig.signed certificate_oidc_issuer certificate_identity b manifest))
        bad_signature (do m ← parse_manifest sig.decode_manifest manifest; check_claims m)

  unfoldable pub verify : Bytes → Bytes → Result ManifestError Manifest
  unfolding bytes_eq parse_manifest check_encryption_floor
  verify manifest bundle = reject (is_empty manifest || is_empty bundle) missing (
      reject (ltb max_manifest_bytes (length manifest)) too_large
        (check_signature manifest (sig.decode_bundle bundle)))

abbrev pub release_of : Manifest → Policy.Release
release_of m = record {
  source_revision = m.revision;
  pcr0 = m.pcr0;
  pcr1 = m.pcr1;
  pcr2 = m.pcr2;
  pcrs = [];
}

abbrev pub derived_policy : List Manifest → Policy
derived_policy ms = record {
  schema_version = Policy.policy_schema_version;
  manifest_schema = Policy.manifest_schema_version;
  workload = gateway_workload;
  profile = gateway_profile;
  e2ee = e2ee_contract;
  releases = map release_of ms;
}

-- Policy: `encode` is json.Marshal and `decode` the strict decoder of ParsePolicy.
unfoldable pub policy_of :
    (Policy → Bytes) → (Bytes → Option Policy) → List Manifest → Option (Result PolicyError Policy)
policy_of encode decode [] = none
policy_of encode decode (m ∷ ms) = some (parse_policy decode (encode (derived_policy (m ∷ ms))))
