-- ===== src/Attestation/Verifier/Accepted.antt =====
-- What validate accepts, in full (internal/attestation/verifier.go).
use dappnode_nexus_sdk.Prelude.{ℕ, ◌≡◌, ◌↔◌, ap, sym, false, not, some, List}
use dappnode_nexus_sdk.Prelude.Bytes.{Bytes, bytes_eq, passed_bytes_eq, passes_bytes_eq}
use dappnode_nexus_sdk.Prelude.Result.{ok, reject_then, bind_then, ok-injective}
use dappnode_nexus_sdk.Prelude.Time.{Time}
use dappnode_nexus_sdk.Attestation.Policy.{Release}
use dappnode_nexus_sdk.Attestation.Verifier.Types.{
  Deps, FetchedEvidence, NitroDocument, NitroResult, Evidence, Verifier,
}
use dappnode_nexus_sdk.Attestation.Verifier.{
  validate, after_claims, bad_state, validate_manifest_against, check_document, check_time,
  check_pcrs, evidence_of,
}
use dappnode_nexus_sdk.Attestation.Verifier.Manifest.{Claims, Claims-iff}
use dappnode_nexus_sdk.Attestation.Verifier.Signed.{Signs, document_sound, document_complete}
use dappnode_nexus_sdk.Attestation.Verifier.Window.{IsFresh, check_time_iff}
use dappnode_nexus_sdk.Attestation.Verifier.Measured.{Measured, check_pcrs_iff}

-- The evidence binds a key to a pinned build: the manifest has the digest that the document signs,
-- its claims are the policy's and name the release `rel`; the document is signed under the AWS
-- root, for this nonce and this key, in the time window, with the measurements of `rel`; and the
-- evidence is made of these parts.
pub record Binds (d : Deps) (v : Verifier) (f : FetchedEvidence) (nonce : Bytes) (now : Time)
    (ev : Evidence) : Type 0 where
  pub rel : Release
  pub result : NitroResult
  pub doc : NitroDocument
  pub attested : Time
  pub pcrs : List (ℕ × Bytes)
  pub state : bad_state v nonce now ≡ false
  pub digest : f.user_data ≡ d.sha384 f.manifest
  pub claims : Claims d v.policy f.manifest rel
  pub validated : d.validate_document f.document ≡ some (some result)
  pub signs : Signs (d.sha384 f.manifest) nonce f.public_key_copy result doc
  pub fresh : IsFresh v now doc attested
  pub measured : Measured rel doc pcrs
  pub made : ev ≡ evidence_of v f rel result doc attested pcrs

module _ (d : Deps) (v : Verifier) (f : FetchedEvidence) (nonce : Bytes) (now : Time)
    (ev : Evidence) where
  validate_sound : validate d v f nonce now ≡ ok ev → Binds d v f nonce now ev
  unfolding validate after_claims
  validate_sound h = reject_then (bad_state v nonce now) _ _ h λ state h.
      reject_then (not (bytes_eq f.user_data (d.sha384 f.manifest))) _ _ h λ digest h.
        bind_then (validate_manifest_against d v.policy f.manifest) _ h λ rel hrel h.
          bind_then
            (check_document (d.sha384 f.manifest) nonce f.public_key_copy
              (d.validate_document f.document))
            _ h
            λ checked hdoc h. bind_then (check_time v now checked.1) _ h λ attested htime h.
              bind_then (check_pcrs rel checked.1) _ h λ pcrs hpcrs done.
                let (validated, signs) = document_sound _ _ _ _ checked.0 checked.1 hdoc in
                record {
                  rel = rel;
                  result = checked.0;
                  doc = checked.1;
                  attested = attested;
                  pcrs = pcrs;
                  state = state;
                  digest = passed_bytes_eq _ _ digest;
                  claims = (Claims-iff d v.policy f.manifest rel).0 hrel;
                  validated = validated;
                  signs = signs;
                  fresh = (check_time_iff v now checked.1 attested).0 htime;
                  measured = (check_pcrs_iff rel checked.1 pcrs).0 hpcrs;
                  made = sym (ok-injective done);
                }

  validate_complete : Binds d v f nonce now ev → validate d v f nonce now ≡ ok ev
  unfolding validate after_claims
  validate_complete b =
      simp
        (
          b.state,
          passes_bytes_eq _ _ b.digest,
          (Claims-iff d v.policy f.manifest b.rel).1 b.claims,
          b.validated,
          document_complete _ _ _ b.result b.doc b.signs,
          (check_time_iff v now b.doc b.attested).1 b.fresh,
          (check_pcrs_iff b.rel b.doc b.pcrs).1 b.measured,
        )
        (ap ok (sym b.made))

  -- validate returns evidence exactly when it binds the key to a pinned build.
  pub validate_iff : (validate d v f nonce now ≡ ok ev) ↔ Binds d v f nonce now ev
  validate_iff = (validate_sound, validate_complete)
