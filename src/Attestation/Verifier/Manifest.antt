-- ===== src/Attestation/Verifier/Manifest.antt =====
-- validateManifestAgainst: the claims and the release that it accepts
-- (internal/attestation/verifier.go).
use dappnode_nexus_sdk.Prelude.{
  ◌≡◌, ◌↔◌, refl, ap, false, ◌||◌, Option, none, some, is_empty, arith, Option-cases, inl, inr,
  passed_eq, passes_eq, passed_not,
}
use dappnode_nexus_sdk.Prelude.Bytes.{Bytes, codes, bytes_eq, passed_bytes_eq, passes_bytes_eq}
use dappnode_nexus_sdk.Prelude.Result.{Result, ok, err, reject_then, ok-injective}
use dappnode_nexus_sdk.Attestation.Policy.{E2eePolicy, Release, Policy, release_for}
use dappnode_nexus_sdk.Attestation.Policy.Validated.{e2ee_eq_iff}
use dappnode_nexus_sdk.Attestation.Verifier.Types.{Deps, ManifestClaims, VerifyError}
use dappnode_nexus_sdk.Attestation.Verifier.{
  select_release, check_claims, validate_manifest_against,
}

-- The claims of the manifest agree with the policy, its e2ee block is the policy's, and `rel` is
-- what the policy pins for the claimed revision.
pub record Claims (d : Deps) (p : Policy) (raw : Bytes) (rel : Release) : Type 0 where
  pub claims : ManifestClaims
  pub decoded : d.decode_claims raw ≡ some claims
  pub schema : claims.schema_version ≡ p.manifest_schema
  pub workload : claims.workload ≡ p.workload
  pub profile : claims.profile ≡ p.profile
  pub has_e2ee : (is_empty claims.e2ee || bytes_eq claims.e2ee (codes "null")) ≡ false
  pub e2ee : d.decode_e2ee claims.e2ee ≡ some p.e2ee
  pub pinned : release_for claims.source_revision p.releases ≡ some rel

-- The release of the policy, or the refusal that it is not pinned.
abbrev pub pin : Bytes → Option Release → Result VerifyError Release
pin revision o = elim o [ none ↦ err (VerifyError.unpinned revision) | some r ↦ ok r ]

pin-ok : (revision : Bytes) (o : Option Release) {r : Release} → pin revision o ≡ ok r → o ≡ some r
pin-ok revision none h = absurd (ground arith)
pin-ok revision (some r) h = ap some (ok-injective h)

select_release-ok :
    (p : Policy) (revision : Bytes) (o : Option E2eePolicy) {r : Release}
    → select_release p revision o ≡ ok r
    → (o ≡ some p.e2ee) × (release_for revision p.releases ≡ some r)
unfolding select_release
select_release-ok p revision none h = absurd (ground arith)
select_release-ok p revision (some e) h =
    reject_then _ VerifyError.e2ee_mismatch (pin revision (release_for revision p.releases)) h
      λ same rest. (ap some ((e2ee_eq_iff e p.e2ee).0 (passed_not same)), pin-ok revision _ rest)

Claims-sound :
    (d : Deps) (p : Policy) (raw : Bytes) (rel : Release)
    → validate_manifest_against d p raw ≡ ok rel
    → Claims d p raw rel
unfolding check_claims
Claims-sound d p raw rel h = elim (Option-cases (d.decode_claims raw)) [
  | inl e ↦ absurd (ground arith)
  | inr (c, e) ↦ reject_then _ _ _ (rw e at h) λ schema h. reject_then _ _ _ h λ workload h.
      reject_then _ _ _ h λ profile h. reject_then _ _ _ h λ present h.
        let (e2ee, pinned) = select_release-ok p c.source_revision (d.decode_e2ee c.e2ee) h in
        record {
          claims = c;
          decoded = e;
          schema = passed_eq _ _ schema;
          workload = passed_bytes_eq _ _ workload;
          profile = passed_bytes_eq _ _ profile;
          has_e2ee = present;
          e2ee = e2ee;
          pinned = pinned;
        }
]

Claims-complete :
    (d : Deps) (p : Policy) (raw : Bytes) (rel : Release)
    → Claims d p raw rel
    → validate_manifest_against d p raw ≡ ok rel
unfolding check_claims select_release
Claims-complete d p raw rel c = simp (
  c.decoded,
  passes_eq _ _ c.schema,
  passes_bytes_eq _ _ c.workload,
  passes_bytes_eq _ _ c.profile,
  c.has_e2ee,
  c.e2ee,
  (e2ee_eq_iff p.e2ee p.e2ee).1 refl,
  c.pinned,
)

pub Claims-iff :
    (d : Deps) (p : Policy) (raw : Bytes) (rel : Release)
    → (validate_manifest_against d p raw ≡ ok rel) ↔ Claims d p raw rel
Claims-iff d p raw rel = (Claims-sound d p raw rel, Claims-complete d p raw rel)
