-- ===== src/Tests/Fixtures.antt =====
-- A policy with one release, and evidence for it.
use dappnode_nexus_sdk.Prelude.{
  ℕ, zero, suc, ◌+◌, ◌*◌, true, false, false, Option, some, List, [], ◌∷◌,
}
use dappnode_nexus_sdk.Prelude.Bytes.{Bytes, codes}
use dappnode_nexus_sdk.Prelude.Time.{Time, pos, unix_milli, second, minute}
use dappnode_nexus_sdk.Http.{HttpRequest, HttpResponse}
use dappnode_nexus_sdk.Attestation.Policy.{
  Release, Policy, e2ee_contract, gateway_workload, gateway_profile, policy_schema_version,
  manifest_schema_version,
}
use dappnode_nexus_sdk.Attestation.Verifier.Types.{
  Deps, EndpointResponse, FetchedEvidence, NitroDocument, NitroResult, Evidence, Verifier,
  expected_root_fingerprint,
}

unfoldable pub repeat : ℕ → ℕ → Bytes
repeat zero c = []
repeat (suc n) c = c ∷ repeat n c

abbrev pub revision : Bytes
revision = codes "0123456789abcdef0123456789abcdef01234567"

abbrev pub other_revision : Bytes
other_revision = codes "1123456789abcdef0123456789abcdef01234567"

-- Forty-eight bytes 0x11, and their text.
abbrev pub measurement : Bytes
measurement =
    17 ∷ 17 ∷ 17 ∷ 17 ∷ 17 ∷ 17 ∷ 17 ∷ 17 ∷ 17 ∷ 17 ∷ 17 ∷ 17 ∷ 17 ∷ 17 ∷ 17 ∷ 17 ∷ 17 ∷ 17 ∷ 17
    ∷ 17 ∷ 17 ∷ 17 ∷ 17 ∷ 17 ∷ 17 ∷ 17 ∷ 17 ∷ 17 ∷ 17 ∷ 17 ∷ 17 ∷ 17 ∷ 17 ∷ 17 ∷ 17 ∷ 17 ∷ 17 ∷ 17
    ∷ 17 ∷ 17 ∷ 17 ∷ 17 ∷ 17 ∷ 17 ∷ 17 ∷ 17 ∷ 17 ∷ 17 ∷ []

abbrev pub measurement_text : Bytes
measurement_text =
    codes
      "111111111111111111111111111111111111111111111111111111111111111111111111111111111111111111111111"

abbrev pub release_with : List (ℕ × Bytes) → Release
release_with pcrs = record {
  source_revision = revision;
  pcr0 = measurement_text;
  pcr1 = measurement_text;
  pcr2 = measurement_text;
  pcrs = pcrs;
}

abbrev pub decoded_pcrs : List (ℕ × Bytes)
decoded_pcrs = (0, measurement) ∷ (1, measurement) ∷ (2, measurement) ∷ []

abbrev pub policy_with : List (ℕ × Bytes) → Policy
policy_with pcrs = record {
  schema_version = policy_schema_version;
  manifest_schema = manifest_schema_version;
  workload = gateway_workload;
  profile = gateway_profile;
  e2ee = e2ee_contract;
  releases = release_with pcrs ∷ [];
}

abbrev pub source_policy : Policy
source_policy = policy_with []

abbrev pub policy : Policy
policy = policy_with decoded_pcrs

abbrev pub verifier : Verifier
verifier = record {
  endpoint = codes "https://nexus.example/attestation";
  policy = policy;
  max_age = pos (5 * minute);
  max_future_skew = pos (30 * second);
}

-- The nonce, the digest and the key of the run.
abbrev pub nonce : Bytes
nonce =
    7 ∷ 7 ∷ 7 ∷ 7 ∷ 7 ∷ 7 ∷ 7 ∷ 7 ∷ 7 ∷ 7 ∷ 7 ∷ 7 ∷ 7 ∷ 7 ∷ 7 ∷ 7 ∷ 7 ∷ 7 ∷ 7 ∷ 7 ∷ 7 ∷ 7 ∷ 7 ∷ 7
    ∷ 7 ∷ 7 ∷ 7 ∷ 7 ∷ 7 ∷ 7 ∷ 7 ∷ 7 ∷ []

abbrev pub key : Bytes
key =
    9 ∷ 9 ∷ 9 ∷ 9 ∷ 9 ∷ 9 ∷ 9 ∷ 9 ∷ 9 ∷ 9 ∷ 9 ∷ 9 ∷ 9 ∷ 9 ∷ 9 ∷ 9 ∷ 9 ∷ 9 ∷ 9 ∷ 9 ∷ 9 ∷ 9 ∷ 9 ∷ 9
    ∷ 9 ∷ 9 ∷ 9 ∷ 9 ∷ 9 ∷ 9 ∷ 9 ∷ 9 ∷ []

abbrev pub manifest : Bytes
manifest = codes "{manifest}"

abbrev pub nitro_document : NitroDocument
nitro_document = record { module_id = codes "i-0"; timestamp = 1000; pcrs = decoded_pcrs }

abbrev pub nitro_result : NitroResult
nitro_result = record {
  valid = true;
  chain_trusted = true;
  root_fingerprint = expected_root_fingerprint;
  nonce = nonce;
  user_data = measurement;
  public_key = key;
  document = some nitro_document;
}

abbrev pub key_text : Bytes
key_text = codes "0909090909090909090909090909090909090909090909090909090909090909"

abbrev pub response : EndpointResponse
response = record {
  document = codes "document";
  format = codes "aws-nitro-cose-sign1";
  encoding = codes "base64";
  user_data = measurement_text;
  user_data_encoding = codes "sha384-hex";
  hpke_public_key = key_text;
  hpke_public_key_encoding = codes "raw-x25519-hex";
  manifest = manifest;
}

-- The Gateway of the run answers every request.
abbrev pub send : HttpRequest → Option HttpResponse
send q = some (record {
  status = 200;
  content_type = codes "application/json";
  body = record { bytes = codes "{}"; failure = false };
})

-- The manifest's claims name `claimed`; its digest is `measurement`.
abbrev pub deps_for : Bytes → Deps
deps_for claimed = record {
  decode_response = λ b. some response;
  json_valid = λ b. true;
  base64_decode = λ b. some b;
  base64_encode = λ b. b;
  base64_raw_url = λ b. b;
  media_type = λ b. some b;
  sha384 = λ b. measurement;
  decode_claims = λ b. some (record {
    schema_version = manifest_schema_version;
    profile = gateway_profile;
    workload = gateway_workload;
    source_revision = claimed;
    e2ee = codes "{}";
  });
  decode_e2ee = λ b. some e2ee_contract;
  validate_document = λ b. some (some nitro_result);
}

abbrev pub fetched : FetchedEvidence
fetched = record {
  document = codes "document";
  manifest = manifest;
  user_data = measurement;
  public_key_copy = key;
}

abbrev pub now : Time
now = unix_milli 2000

abbrev pub evidence : Evidence
evidence = record {
  public_key = key;
  attested_at = unix_milli 1000;
  expires_at = unix_milli 1000 + 5 * minute;
  proof = record {
    document = codes "document";
    manifest = manifest;
    nonce = nonce;
    module_id = codes "i-0";
    pcrs = decoded_pcrs;
    root_fingerprint = expected_root_fingerprint;
    source_revision = revision;
    workload = gateway_workload;
    profile = gateway_profile;
    e2ee = e2ee_contract;
  };
}
