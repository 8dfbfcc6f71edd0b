-- ===== src/Sdk/Methods/Verified.antt =====
-- client.go: what Verify returns, and what Evidence then finds.
use dappnode_nexus_sdk.Prelude.{
  ◌≡◌, refl, ap, sym, ◌∙◌, ◌⊎◌, inl, inr, Option, some, is_empty, true,
}
use mathlib.Core.Path.{subst}
use dappnode_nexus_sdk.Prelude.Bytes.{Bytes}
use dappnode_nexus_sdk.Prelude.Result.{Result, ok, err}
use dappnode_nexus_sdk.Prelude.Time.{Time}
use dappnode_nexus_sdk.Attestation.Verifier.Types.{Evidence}
use dappnode_nexus_sdk.Ledger.{Ledger, snapshot, document, without_evidence, verified_record}
use dappnode_nexus_sdk.Confidential
use dappnode_nexus_sdk.Confidential.{
  Clock, Ehbp, VerifiedSession, SessionError, reverify, fingerprint_key,
}
use dappnode_nexus_sdk.Confidential.Describe.{describe_evidence}
use dappnode_nexus_sdk.Confidential.Session.{Established, Refused, Reverified, reverify-Reverified}
use dappnode_nexus_sdk.Sdk.Client.{Client}
use dappnode_nexus_sdk.Sdk.Surface
use dappnode_nexus_sdk.Sdk.Surface.{attestation_from_ledger, snapshot_from_ledger, map_option}
use dappnode_nexus_sdk.Sdk.Methods.{
  ApiError, verification_failed, verification, evidence, current_or, after_reverify, verify,
  evidence_of, evidence_in, snapshot_or,
}

module _ {I T R : Type 0} (ehbp : Ehbp I T R) where
  -- The public record of fresh evidence.
  abbrev shown : Clock → Evidence → Surface.Attestation
  shown k ev = attestation_from_ledger (
      without_evidence (
        verified_record k.in_ledger
          (describe_evidence (fingerprint_key ehbp ev.public_key) ev k.described) ev.proof.document
          ev.proof.manifest))

  -- The record is that of the session's evidence, and Evidence finds the signed material by the
  -- record's identifier, if the document is not empty.
  pub record IsRecord (k : Clock) (outcome : Result Bytes (Option Evidence)) (c : Client T)
      (a : Surface.Attestation) : Type 0 where
    pub session : VerifiedSession T
    pub verified : Established ehbp k outcome c.confidential session
    pub same : a ≡ shown k verified.evidence
    pub found :
        (is_empty verified.evidence.proof.document ≡ true)
        ⊎ (evidence a.id (some c)
            ≡ ok (record {
              attestation_id = a.id;
              document = verified.evidence.proof.document;
              manifest = verified.evidence.proof.manifest;
            }))

  pub data VerifyIs (k : Clock) (outcome : Result Bytes (Option Evidence))
      : Client T → Result ApiError Surface.Attestation → Type 0 where
    recorded :
        (c : Client T) (a : Surface.Attestation)
        → IsRecord k outcome c a
        → VerifyIs k outcome c (ok a)
    failed :
        (c : Client T) (e : SessionError)
        → Refused ehbp k c.confidential
        → VerifyIs k outcome c (err (verification_failed e))

  shown-found :
      (k : Clock) (outcome : Result Bytes (Option Evidence)) (c : Client T) (s : VerifiedSession T)
      (v : Established ehbp k outcome c.confidential s)
      → (is_empty v.evidence.proof.document ≡ true)
        ⊎ (evidence (shown k v.evidence).id (some c)
            ≡ ok (record {
              attestation_id = (shown k v.evidence).id;
              document = v.evidence.proof.document;
              manifest = v.evidence.proof.manifest;
            }))
  unfolding evidence attestation_from_ledger describe_evidence
  shown-found k outcome c s v = elim v.found [
    | inl e ↦ inl e
    | inr e ↦ inr (
        ap (evidence_in (shown k v.evidence).id) v.in_use
        ∙ ap (evidence_of (shown k v.evidence).id)
            (ap (λ i. document i v.ledger) (sym v.identifier) ∙ e))
  ]

  current-shown :
      (k : Clock) (now : Time) (outcome : Result Bytes (Option Evidence)) (c : Client T)
      (s : VerifiedSession T) (v : Established ehbp k outcome c.confidential s)
      → current_or (verification now (some c)).current ≡ ok (shown k v.evidence)
  unfolding verification snapshot_from_ledger snapshot
  current-shown k now outcome c s v =
      ap (λ l. current_or (snapshot_or now l).current) v.in_use
      ∙ ap (λ o. current_or (map_option attestation_from_ledger o)) v.current

  after_reverify-VerifyIs :
      (c : Client T) (k : Clock) (now : Time) (outcome : Result Bytes (Option Evidence))
      (r : Confidential.Client T × Result SessionError (VerifiedSession T))
      → Reverified ehbp k outcome r
      → VerifyIs k outcome (after_reverify ehbp c now r).0 (after_reverify ehbp c now r).1
  after_reverify-VerifyIs c k now outcome (cc', err e) h = failed _ e h
  after_reverify-VerifyIs c k now outcome (cc', ok s) h =
      let c' : Client T = record c { confidential = cc' } in
      subst (VerifyIs k outcome c') (sym (current-shown k now outcome c' s h)) (
        recorded c' (shown k h.evidence)
          (record { session = s; verified = h; same = refl; found = shown-found k outcome c' s h }))

  -- Verify of a Client that has a ledger returns the public record of fresh, valid evidence, whose
  -- session is now in use, and by whose identifier Evidence finds the signed material (if the
  -- document is not empty); or it fails, and no session is left.
  pub verify-VerifyIs :
      (c : Client T) (k : Clock) (now : Time) (outcome : Result Bytes (Option Evidence))
      (l : Ledger)
      → c.confidential.ledger ≡ some l
      → VerifyIs k outcome (verify ehbp c k now outcome).0 (verify ehbp c k now outcome).1
  unfolding verify
  verify-VerifyIs c k now outcome l h =
      after_reverify-VerifyIs c k now outcome (reverify ehbp c.confidential k outcome)
        (reverify-Reverified ehbp c.confidential k outcome l h)
