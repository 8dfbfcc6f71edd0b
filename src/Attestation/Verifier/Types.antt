-- ===== src/Attestation/Verifier/Types.antt =====
-- The data of internal/attestation/verifier.go, and the packages that it calls.
use dappnode_nexus_sdk.Prelude.{ℕ, ◌^◌, Bool, Option, List}
use dappnode_nexus_sdk.Prelude.Bytes.{Bytes, codes}
use dappnode_nexus_sdk.Prelude.Time.{Time, Duration}
use dappnode_nexus_sdk.Attestation.Policy.{E2eePolicy, Policy}
use dappnode_nexus_sdk.Jsonutil.{ReadLimitError}

abbrev pub nonce_bytes : ℕ
nonce_bytes = 32

abbrev pub hpke_key_bytes : ℕ
hpke_key_bytes = 32

-- sha512.Size384
abbrev pub sha384_bytes : ℕ
sha384_bytes = 48

abbrev pub max_attestation_response : ℕ
max_attestation_response = 2 ^ 20

abbrev pub expected_root_fingerprint : Bytes
expected_root_fingerprint = codes "641a0321a3e244efe456463195d606317ed7cdcc3c1756e09893f3c68f79bb5b"

pub record EndpointResponse : Type 0 where
  pub document : Bytes
  pub format : Bytes
  pub encoding : Bytes
  pub user_data : Bytes
  pub user_data_encoding : Bytes
  pub hpke_public_key : Bytes
  pub hpke_public_key_encoding : Bytes
  pub manifest : Bytes

pub record FetchedEvidence : Type 0 where
  pub document : Bytes
  pub manifest : Bytes
  pub user_data : Bytes
  pub public_key_copy : Bytes

-- `e2ee` is the raw block of `ingress`.
pub record ManifestClaims : Type 0 where
  pub schema_version : ℕ
  pub profile : Bytes
  pub workload : Bytes
  pub source_revision : Bytes
  pub e2ee : Bytes

-- What the AWS Nitro verifier decodes of a signed document; `timestamp` is in milliseconds.
pub record NitroDocument : Type 0 where
  pub module_id : Bytes
  pub timestamp : ℕ
  pub pcrs : List (ℕ × Bytes)

pub record NitroResult : Type 0 where
  pub valid : Bool
  pub chain_trusted : Bool
  pub root_fingerprint : Bytes
  pub nonce : Bytes
  pub user_data : Bytes
  pub public_key : Bytes
  pub document : Option NitroDocument

pub record Proof : Type 0 where
  pub document : Bytes
  pub manifest : Bytes
  pub nonce : Bytes
  pub module_id : Bytes
  pub pcrs : List (ℕ × Bytes)
  pub root_fingerprint : Bytes
  pub source_revision : Bytes
  pub workload : Bytes
  pub profile : Bytes
  pub e2ee : E2eePolicy

pub record Evidence : Type 0 where
  pub public_key : Bytes
  pub attested_at : Time
  pub expires_at : Time
  pub proof : Proof

pub record Verifier : Type 0 where
  pub endpoint : Bytes
  pub policy : Policy
  pub max_age : Duration
  pub max_future_skew : Duration

pub data VerifyError : Type 0 where
  nonce_failed request_failed not_json : VerifyError
  http_status : ℕ → VerifyError
  read_failed : ReadLimitError → VerifyError
  decode_failed bad_format bad_user_data_encoding bad_key_encoding : VerifyError
  bad_manifest bad_document bad_user_data bad_public_key : VerifyError
  bad_state digest_mismatch : VerifyError
  claims_undecodable schema_mismatch workload_mismatch profile_mismatch : VerifyError
  e2ee_missing e2ee_undecodable e2ee_mismatch : VerifyError
  unpinned : Bytes → VerifyError
  document_unparsed no_result invalid untrusted_chain no_document : VerifyError
  nonce_mismatch signed_user_data_mismatch bad_signed_key key_mismatch : VerifyError
  timestamp_range future stale : VerifyError
  pcr_missing : ℕ → VerifyError
  pcr_mismatch : ℕ → Bytes → VerifyError

-- The packages that the verifier calls. `none` stands for an error, and the inner `none` of
-- validate_document for a nil result.
pub record Deps : Type 0 where
  pub decode_response : Bytes → Option EndpointResponse
  pub json_valid : Bytes → Bool
  pub base64_decode : Bytes → Option Bytes
  pub base64_encode : Bytes → Bytes
  pub base64_raw_url : Bytes → Bytes
  pub media_type : Bytes → Option Bytes
  pub sha384 : Bytes → Bytes
  pub decode_claims : Bytes → Option ManifestClaims
  pub decode_e2ee : Bytes → Option E2eePolicy
  pub validate_document : Bytes → Option (Option NitroResult)
