-- ===== src/Attestation/Verifier.antt =====
-- internal/attestation/verifier.go: nonce-bound evidence, checked against a Policy.
-- encoding/json, encoding/base64, mime, crypto/sha512 and the AWS Nitro verifier are the parameter
-- `Deps`; the network, the clock and the random source are arguments.
pub mod Types
pub mod Fetch
pub mod Manifest
pub mod Signed
pub mod Window
pub mod Measured
pub mod Accepted
pub mod Pinned
pub mod Unpinned
use dappnode_nexus_sdk.Prelude.{
  ℕ, ◌+◌, ◌-◌, ◌^◌, Bool, true, false, not, ◌&&◌, ◌||◌, Option, none, some, List, [], ◌∷◌, ◌++◌,
  ltb, ◌==◌, length, is_empty,
}
use dappnode_nexus_sdk.Prelude.Bytes.{Bytes, codes, bytes_eq}
use dappnode_nexus_sdk.Prelude.Result.{Result, ok, err, ◌>>=◌, reject}
use dappnode_nexus_sdk.Prelude.Time.{Time, Duration, add, neg, unix_milli, is_neg, is_nonpos}
use dappnode_nexus_sdk.Attestation.Policy.{
  E2eePolicy, Release, Policy, PolicyError, all_zero, e2ee_eq, release_for, pcr_at, pcr_bytes,
  validate as validate_policy,
}
use dappnode_nexus_sdk.Attestation.Verifier.Types.{
  Deps, FetchedEvidence, ManifestClaims, NitroDocument, NitroResult, Proof, Evidence, Verifier,
  VerifyError, expected_root_fingerprint, nonce_bytes, hpke_key_bytes, sha384_bytes,
}
use dappnode_nexus_sdk.Jsonutil.{max_int64}

-- validateManifestAgainst, from the decoded e2ee block on.
unfoldable pub select_release : Policy → Bytes → Option E2eePolicy → Result VerifyError Release
select_release p revision none = err VerifyError.e2ee_undecodable
select_release p revision (some e) =
    reject (not (e2ee_eq e p.e2ee)) VerifyError.e2ee_mismatch
      (elim (release_for revision p.releases) [
        | none ↦ err (VerifyError.unpinned revision)
        | some r ↦ ok r
      ])

-- The checks on the signed fields, behind the test for a missing document.
unfoldable pub check_contents :
    Bytes → Bytes → Bytes → NitroResult → NitroDocument → Result VerifyError NitroDocument
check_contents digest nonce key r doc =
    reject (not (bytes_eq r.nonce nonce) || not (length r.nonce == nonce_bytes))
      VerifyError.nonce_mismatch
      (reject (not (bytes_eq r.user_data digest) || not (length r.user_data == sha384_bytes))
        VerifyError.signed_user_data_mismatch
        (reject (not (length r.public_key == hpke_key_bytes) || all_zero r.public_key)
          VerifyError.bad_signed_key
          (reject (not (bytes_eq r.public_key key)) VerifyError.key_mismatch (ok doc))))

unfoldable pub check_present :
    Bytes → Bytes → Bytes → NitroResult → Option NitroDocument → Result VerifyError NitroDocument
check_present digest nonce key r none = err VerifyError.no_document
check_present digest nonce key r (some doc) = check_contents digest nonce key r doc

-- The checks on what the Nitro verifier returned.
unfoldable pub check_result : Bytes → Bytes → Bytes → NitroResult → Result VerifyError NitroDocument
check_result digest nonce key r = reject (not r.valid) VerifyError.invalid (
    reject (not r.chain_trusted || not (bytes_eq r.root_fingerprint expected_root_fingerprint))
      VerifyError.untrusted_chain (check_present digest nonce key r r.document))

abbrev pub check_document :
    Bytes
    → Bytes
    → Bytes
    → Option (Option NitroResult)
    → Result VerifyError (NitroResult × NitroDocument)
check_document digest nonce key none = err VerifyError.document_unparsed
check_document digest nonce key (some none) = err VerifyError.no_result
check_document digest nonce key (some (some r)) = do
  doc ← check_result digest nonce key r
  ok (r, doc)

-- The time that the document was signed, if it is within the window.
unfoldable pub check_time : Verifier → Time → NitroDocument → Result VerifyError Time
check_time v now doc =
    let attested = unix_milli doc.timestamp in
    reject (ltb max_int64 doc.timestamp) VerifyError.timestamp_range (
      reject (ltb (add now v.max_future_skew) attested) VerifyError.future
        (reject (ltb attested (add now (neg v.max_age))) VerifyError.stale (ok attested)))

abbrev pub or_empty : Option Bytes → Bytes
or_empty none = []
or_empty (some b) = b

-- One round of the loop over the measurements; it gives the copy that is retained.
abbrev pub check_pcr : ℕ → Release → Option Bytes → Result VerifyError Bytes
check_pcr i r none = err (VerifyError.pcr_missing i)
check_pcr i r (some actual) =
    reject (not (length actual == pcr_bytes) || all_zero actual) (VerifyError.pcr_missing i) (
      reject (not (bytes_eq actual (or_empty (pcr_at i r.pcrs))))
        (VerifyError.pcr_mismatch i r.source_revision) (ok actual))

unfoldable pub check_pcrs : Release → NitroDocument → Result VerifyError (List (ℕ × Bytes))
check_pcrs r doc = do
  a ← check_pcr 0 r (pcr_at 0 doc.pcrs)
  b ← check_pcr 1 r (pcr_at 1 doc.pcrs)
  c ← check_pcr 2 r (pcr_at 2 doc.pcrs)
  ok ((0, a) ∷ (1, b) ∷ (2, c) ∷ [])

abbrev pub evidence_of :
    Verifier
    → FetchedEvidence
    → Release
    → NitroResult
    → NitroDocument
    → Time
    → List (ℕ × Bytes)
    → Evidence
evidence_of v f rel r doc attested pcrs = record {
  public_key = r.public_key;
  attested_at = attested;
  expires_at = add attested v.max_age;
  proof = record {
    document = f.document;
    manifest = f.manifest;
    nonce = r.nonce;
    module_id = doc.module_id;
    pcrs = pcrs;
    root_fingerprint = r.root_fingerprint;
    source_revision = rel.source_revision;
    workload = v.policy.workload;
    profile = v.policy.profile;
    e2ee = v.policy.e2ee;
  };
}

abbrev bad_state : Verifier → Bytes → Time → Bool
bad_state v nonce now =
    not (length nonce == nonce_bytes) || now == 0 || is_nonpos v.max_age || is_neg v.max_future_skew

module _ (d : Deps) where
  open d use {sha384, decode_claims, decode_e2ee, validate_document}

  -- The same, from the decoded claims on.
  unfoldable pub check_claims : Policy → Option ManifestClaims → Result VerifyError Release
  check_claims p none = err VerifyError.claims_undecodable
  check_claims p (some c) =
      reject (not (c.schema_version == p.manifest_schema)) VerifyError.schema_mismatch (
        reject (not (bytes_eq c.workload p.workload)) VerifyError.workload_mismatch (
          reject (not (bytes_eq c.profile p.profile)) VerifyError.profile_mismatch (
            reject (is_empty c.e2ee || bytes_eq c.e2ee (codes "null")) VerifyError.e2ee_missing
              (select_release p c.source_revision (decode_e2ee c.e2ee)))))

  abbrev pub validate_manifest_against : Policy → Bytes → Result VerifyError Release
  validate_manifest_against p raw = check_claims p (decode_claims raw)

  -- What validate does once the release is selected.
  unfoldable pub after_claims :
      Verifier → FetchedEvidence → Bytes → Time → Release → Result VerifyError Evidence
  after_claims v f nonce now rel = do
    checked ←
        check_document (sha384 f.manifest) nonce f.public_key_copy (validate_document f.document)
    attested ← check_time v now (checked.1)
    pcrs ← check_pcrs rel (checked.1)
    ok (evidence_of v f rel (checked.0) (checked.1) attested pcrs)

  -- Verifier.validate, at fetched evidence that is not nil.
  unfoldable pub validate : Verifier → FetchedEvidence → Bytes → Time → Result VerifyError Evidence
  validate v f nonce now = reject (bad_state v nonce now) VerifyError.bad_state (
      reject (not (bytes_eq f.user_data (sha384 f.manifest))) VerifyError.digest_mismatch
        (do rel ← validate_manifest_against v.policy f.manifest; after_claims v f nonce now rel))

-- SetPolicy, at a policy that is not nil: what is refused leaves the policy in force.
abbrev pub install : Verifier → Result PolicyError Policy → Verifier × Result PolicyError Unit
install v (ok p) = (record v { policy = p }, ok tt)
install v (err e) = (v, err e)

unfoldable pub set_policy : Verifier → Policy → Verifier × Result PolicyError Unit
set_policy v p = install v (validate_policy p)
