-- ===== src/Attestation/Policy.antt =====
-- internal/attestation/policy.go: the trust policy and its validation. encoding/json is the
-- parameter `decode` (jsonutil.DecodeStrict at a Policy).
pub mod Pcr
pub mod Validated
pub mod Lookup
use Prim.Native.Nat.{bit_or}
use dappnode_nexus_sdk.Prelude.{
  ℕ, ◌+◌, ◌*◌, ◌^◌, Bool, true, false, not, ◌&&◌, ◌||◌, Option, none, some, List, [], ◌∷◌, ltb, leb,
  ◌==◌, if◌then◌else◌, length, is_empty,
}
use dappnode_nexus_sdk.Prelude.Bytes.{Bytes, codes, bytes_eq}
use dappnode_nexus_sdk.Prelude.Hex.{hex_encode, hex_decode}
use dappnode_nexus_sdk.Prelude.Result.{Result, ok, err, ◌>>=◌, reject}

abbrev pub policy_schema_version : ℕ
policy_schema_version = 2

abbrev pub manifest_schema_version : ℕ
manifest_schema_version = 4

abbrev pub gateway_workload : Bytes
gateway_workload = codes "dappnode-nexus-gateway"

abbrev pub gateway_profile : Bytes
gateway_profile = codes "nexus-gateway-v2"

abbrev pub confidential_endpoint : Bytes
confidential_endpoint = codes "/v1/confidential/chat/completions"

abbrev pub ehbp_protocol : Bytes
ehbp_protocol = codes "ehbp-v1"

abbrev pub ehbp_suite : Bytes
ehbp_suite = codes "DHKEM-X25519-HKDF-SHA256/HKDF-SHA256/AES-256-GCM"

abbrev pub max_policy_bytes : ℕ
max_policy_bytes = 64 * 2 ^ 10

abbrev pub pcr_bytes : ℕ
pcr_bytes = 48

abbrev pub max_policy_releases : ℕ
max_policy_releases = 4

pub record E2eePolicy : Type 0 where
  pub protocol : Bytes
  pub suite : Bytes
  pub endpoint : Bytes
  pub request_encrypted : Bool
  pub response_encrypted : Bool

-- `pcrs` is the map from an index to a decoded measurement that validate fills.
pub record Release : Type 0 where
  pub source_revision : Bytes
  pub pcr0 : Bytes
  pub pcr1 : Bytes
  pub pcr2 : Bytes
  pub pcrs : List (ℕ × Bytes)

pub record Policy : Type 0 where
  pub schema_version : ℕ
  pub manifest_schema : ℕ
  pub workload : Bytes
  pub profile : Bytes
  pub e2ee : E2eePolicy
  pub releases : List Release

pub data ReleaseError : Type 0 where
  bad_revision : ReleaseError
  pcr_length pcr_encoding pcr_zero : ℕ → ReleaseError

pub data PolicyError : Type 0 where
  empty_json too_large decode_failed : PolicyError
  bad_schema bad_manifest_schema bad_workload bad_profile bad_e2ee : PolicyError
  no_releases too_many_releases : PolicyError
  bad_release : ℕ → ReleaseError → PolicyError
  duplicate_revision : Bytes → PolicyError

abbrev pub is_hex_digit : ℕ → Bool
is_hex_digit c = leb b'0' c && leb c b'9' || leb b'a' c && leb c b'f'

unfoldable pub all_hex : Bytes → Bool
all_hex [] = true
all_hex (c ∷ cs) = is_hex_digit c && all_hex cs

-- The pattern ^[0-9a-f]{40}$
unfoldable pub is_revision : Bytes → Bool
unfolding all_hex
is_revision s = length s == 40 && all_hex s

-- The loop of allZero, which folds the bytes with |=.
unfoldable pub combine : ℕ → Bytes → ℕ
combine acc [] = acc
combine acc (b ∷ bs) = combine (bit_or acc b) bs

unfoldable pub all_zero : Bytes → Bool
unfolding combine
all_zero b = combine 0 b == 0

abbrev pub check_canonical : ℕ → Bytes → Option Bytes → Result ReleaseError Bytes
check_canonical i encoded none = err (pcr_encoding i)
check_canonical i encoded (some d) =
    reject (not (bytes_eq (hex_encode d) encoded)) (pcr_encoding i)
      (reject (all_zero d) (pcr_zero i) (ok d))

unfoldable pub decode_pcr : ℕ → Bytes → Result ReleaseError Bytes
unfolding bytes_eq hex_encode hex_decode all_zero
decode_pcr i encoded =
    reject (not (length encoded == pcr_bytes * 2)) (pcr_length i)
      (check_canonical i encoded (hex_decode encoded))

unfoldable pub validate_release : Release → Result ReleaseError Release
validate_release r = reject (not (is_revision r.source_revision)) bad_revision (do
  a ← decode_pcr 0 r.pcr0
  b ← decode_pcr 1 r.pcr1
  c ← decode_pcr 2 r.pcr2
  ok (record r { pcrs = (0, a) ∷ (1, b) ∷ (2, c) ∷ [] }))

-- The lookup in the map `seen`.
unfoldable pub contains : Bytes → List Bytes → Bool
unfolding bytes_eq
contains s [] = false
contains s (t ∷ ts) = bytes_eq t s || contains s ts

abbrev pub in_release : ℕ → Result ReleaseError Release → Result PolicyError Release
in_release i (ok r) = ok r
in_release i (err e) = err (bad_release i e)

-- The loop of validate, from the release with index `i` on.
unfoldable pub validate_releases : ℕ → List Bytes → List Release → Result PolicyError (List Release)
validate_releases i seen [] = ok []
validate_releases i seen (r ∷ rs) =
    let rest = validate_releases (i + 1) (r.source_revision ∷ seen) rs in
    do
      r' ← in_release i (validate_release r)
      rs' ← reject (contains r.source_revision seen) (duplicate_revision r.source_revision) rest
      ok (r' ∷ rs')

unfoldable pub e2ee_eq : E2eePolicy → E2eePolicy → Bool
unfolding bytes_eq
e2ee_eq a b =
    bytes_eq a.protocol b.protocol
    && bytes_eq a.suite b.suite
    && bytes_eq a.endpoint b.endpoint
    && (if a.request_encrypted then b.request_encrypted else not b.request_encrypted)
    && (if a.response_encrypted then b.response_encrypted else not b.response_encrypted)

abbrev pub e2ee_contract : E2eePolicy
e2ee_contract = record {
  protocol = ehbp_protocol;
  suite = ehbp_suite;
  endpoint = confidential_endpoint;
  request_encrypted = true;
  response_encrypted = true;
}

-- Policy.validate; the policy that comes back has its releases' measurements decoded.
unfoldable pub validate : Policy → Result PolicyError Policy
validate p = reject (not (p.schema_version == policy_schema_version)) bad_schema (
    reject (not (p.manifest_schema == manifest_schema_version)) bad_manifest_schema (
      reject (not (bytes_eq p.workload gateway_workload)) bad_workload (
        reject (not (bytes_eq p.profile gateway_profile)) bad_profile (
          reject (not (e2ee_eq p.e2ee e2ee_contract)) bad_e2ee (
            reject (length p.releases == 0) no_releases (
              reject (ltb max_policy_releases (length p.releases)) too_many_releases
                (do rs ← validate_releases 0 [] p.releases; ok (record p { releases = rs }))))))))

abbrev pub validate_decoded : Option Policy → Result PolicyError Policy
validate_decoded none = err decode_failed
validate_decoded (some p) = validate p

unfoldable pub parse_policy : (Bytes → Option Policy) → Bytes → Result PolicyError Policy
parse_policy decode b =
    reject (is_empty b) empty_json
      (reject (ltb max_policy_bytes (length b)) too_large (validate_decoded (decode b)))

unfoldable pub release_for : Bytes → List Release → Option Release
unfolding bytes_eq
release_for revision [] = none
release_for revision (r ∷ rs) =
    if bytes_eq r.source_revision revision then some r else release_for revision rs

-- A map's lookup, as expectedPCRs()[index] and Document.PCRs[index] use it.
unfoldable pub pcr_at : ℕ → List (ℕ × Bytes) → Option Bytes
pcr_at i [] = none
pcr_at i ((j, b) ∷ m) = if j == i then some b else pcr_at i m
