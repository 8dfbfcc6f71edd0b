-- ===== src/Attestation/Verifier/Unpinned.antt =====
-- When validate fails with ErrUnpinnedRelease (internal/attestation/verifier.go).
use dappnode_nexus_sdk.Prelude.{
  ℕ, ◌≡◌, ◌≢◌, ap, Bool, true, false, not, Option, none, some, [], ◌∷◌, arith, Option-cases,
  Bool-cases, List, All, inl, inr,
}
use dappnode_nexus_sdk.Prelude.Bytes.{Bytes, bytes_eq, bytes_ne}
use dappnode_nexus_sdk.Prelude.Result.{
  Result, ok, err, reject, ◌>>=◌, err-injective, reject-eq-err, bind-eq-err,
}
use dappnode_nexus_sdk.Prelude.Time.{Time}
use dappnode_nexus_sdk.Attestation.Policy.{E2eePolicy, Release, Policy, release_for, pcr_at}
use dappnode_nexus_sdk.Attestation.Verifier.Types.{
  Deps, FetchedEvidence, ManifestClaims, NitroDocument, NitroResult, Verifier, VerifyError,
  unpinned,
}
use dappnode_nexus_sdk.Attestation.Verifier.Manifest.{pin}
use dappnode_nexus_sdk.Attestation.Verifier.{
  after_claims, evidence_of, validate, bad_state, select_release, check_claims,
  validate_manifest_against, check_contents, check_present, check_result, check_document,
  check_time, check_pcr, check_pcrs,
}

-- An error other than ErrUnpinnedRelease.
abbrev IsOther : VerifyError → Type 0
IsOther e = (revision : Bytes) → e ≢ unpinned revision

-- A result that is not ErrUnpinnedRelease.
abbrev NotUnpinned : {A : Type 0} → Result VerifyError A → Type 0
NotUnpinned r = (revision : Bytes) → r ≢ err (unpinned revision)

reject-NotUnpinned :
    {A : Type 0} (b : Bool) (e : VerifyError) (rest : Result VerifyError A)
    → IsOther e
    → NotUnpinned rest
    → NotUnpinned (reject b e rest)
reject-NotUnpinned true e rest h k r p = h r (err-injective p)
reject-NotUnpinned false e rest h k r p = k r p

bind-NotUnpinned :
    {A B : Type 0} (m : Result VerifyError A) (f : A → Result VerifyError B)
    → NotUnpinned m
    → ((a : A) → NotUnpinned (f a))
    → NotUnpinned (m >>= f)
bind-NotUnpinned (ok a) f h k r p = k a r p
bind-NotUnpinned (err e) f h k r p = h r (ap err (err-injective p))

ok-NotUnpinned : {A : Type 0} (a : A) → NotUnpinned (ok a)
ok-NotUnpinned a revision p = cc

check_contents-NotUnpinned :
    (digest nonce key : Bytes) (r : NitroResult) (doc : NitroDocument)
    → NotUnpinned (check_contents digest nonce key r doc)
unfolding check_contents
check_contents-NotUnpinned digest nonce key r doc revision p = ground arith

check_present-NotUnpinned :
    (digest nonce key : Bytes) (r : NitroResult) (o : Option NitroDocument)
    → NotUnpinned (check_present digest nonce key r o)
unfolding check_present
check_present-NotUnpinned digest nonce key r none revision p = cc
check_present-NotUnpinned digest nonce key r (some doc) revision p =
    check_contents-NotUnpinned digest nonce key r doc revision p

check_result-NotUnpinned :
    (digest nonce key : Bytes) (r : NitroResult) → NotUnpinned (check_result digest nonce key r)
unfolding check_result
check_result-NotUnpinned digest nonce key r revision p =
    ground (arith, check_present-NotUnpinned digest nonce key r r.document revision)

check_document-NotUnpinned :
    (digest nonce key : Bytes) (o : Option (Option NitroResult))
    → NotUnpinned (check_document digest nonce key o)
check_document-NotUnpinned digest nonce key none revision p = cc
check_document-NotUnpinned digest nonce key (some none) revision p = cc
check_document-NotUnpinned digest nonce key (some (some r)) revision p =
    bind-NotUnpinned (check_result digest nonce key r) (λ doc. ok (r, doc))
      (check_result-NotUnpinned digest nonce key r) (λ doc. ok-NotUnpinned (r, doc)) revision p

check_time-NotUnpinned :
    (v : Verifier) (now : Time) (doc : NitroDocument) → NotUnpinned (check_time v now doc)
unfolding check_time
check_time-NotUnpinned v now doc revision p = ground arith

check_pcr-NotUnpinned : (i : ℕ) (rel : Release) (o : Option Bytes) → NotUnpinned (check_pcr i rel o)
check_pcr-NotUnpinned i rel none revision p = ground arith
check_pcr-NotUnpinned i rel (some a) revision p = ground arith

check_pcrs-NotUnpinned : (rel : Release) (doc : NitroDocument) → NotUnpinned (check_pcrs rel doc)
unfolding check_pcrs
check_pcrs-NotUnpinned rel doc =
    bind-NotUnpinned (check_pcr 0 rel (pcr_at 0 doc.pcrs)) _
      (check_pcr-NotUnpinned 0 rel (pcr_at 0 doc.pcrs))
      λ a.
        bind-NotUnpinned (check_pcr 1 rel (pcr_at 1 doc.pcrs)) _
          (check_pcr-NotUnpinned 1 rel (pcr_at 1 doc.pcrs))
          λ b.
            bind-NotUnpinned (check_pcr 2 rel (pcr_at 2 doc.pcrs)) _
              (check_pcr-NotUnpinned 2 rel (pcr_at 2 doc.pcrs))
              λ c. ok-NotUnpinned ((0, a) ∷ (1, b) ∷ (2, c) ∷ [])

-- A revision that is not found is claimed by no release of the list.
release_for-none :
    (revision : Bytes) (rs : List Release)
    → release_for revision rs ≡ none
    → All (λ r. r.source_revision ≢ revision) rs
unfolding release_for
release_for-none revision [] h = tt
release_for-none revision (r ∷ rs) h = elim (Bool-cases (bytes_eq r.source_revision revision)) [
  | inl e ↦ absurd (cc (rw e at h))
  | inr e ↦ (bytes_ne _ _ e, release_for-none revision rs (rw e at h))
]

-- The revision of the attested claims is one that no release of the policy claims.
pub record IsUnpinned (d : Deps) (p : Policy) (raw revision : Bytes) : Type 0 where
  pub claims : ManifestClaims
  pub decoded : d.decode_claims raw ≡ some claims
  pub claimed : claims.source_revision ≡ revision
  pub unlisted : All (λ r. r.source_revision ≢ revision) p.releases

pin-unpinned :
    (revision r : Bytes) (o : Option Release)
    → pin r o ≡ err (unpinned revision)
    → (r ≡ revision) × (o ≡ none)
pin-unpinned revision r none p = ground arith
pin-unpinned revision r (some q) p = absurd (cc)

select_release-unpinned :
    (p : Policy) (r revision : Bytes) (o : Option E2eePolicy)
    → select_release p r o ≡ err (unpinned revision)
    → (r ≡ revision) × (release_for r p.releases ≡ none)
unfolding select_release
select_release-unpinned p r revision none h = absurd (cc)
select_release-unpinned p r revision (some e) h =
    ground (arith, pin-unpinned revision r (release_for r p.releases))

undecodable :
    (d : Deps) (p : Policy) (revision : Bytes) → check_claims d p none ≢ err (unpinned revision)
unfolding check_claims
undecodable d p revision h = cc

claims_tests :
    (d : Deps) (p : Policy) (c : ManifestClaims) (revision : Bytes)
    → check_claims d p (some c) ≡ err (unpinned revision)
    → (c.source_revision ≡ revision) × (release_for c.source_revision p.releases ≡ none)
unfolding check_claims
claims_tests d p c revision h =
    ground (arith, select_release-unpinned p c.source_revision revision (d.decode_e2ee c.e2ee))

check_claims-unpinned :
    (d : Deps) (p : Policy) (raw revision : Bytes)
    → validate_manifest_against d p raw ≡ err (unpinned revision)
    → IsUnpinned d p raw revision
check_claims-unpinned d p raw revision h = elim (Option-cases (d.decode_claims raw)) [
  | inl e ↦ absurd (undecodable d p revision (rw e at h))
  | inr (c, e) ↦
      let (same, none_found) = claims_tests d p c revision (rw (e) at h) in
      record {
        claims = c;
        decoded = e;
        claimed = same;
        unlisted = release_for-none revision p.releases (rw same at none_found);
      }
]

after_claims-NotUnpinned :
    (d : Deps) (v : Verifier) (f : FetchedEvidence) (nonce : Bytes) (now : Time) (rel : Release)
    → NotUnpinned (after_claims d v f nonce now rel)
unfolding after_claims
after_claims-NotUnpinned d v f nonce now rel =
    bind-NotUnpinned
      (check_document (d.sha384 f.manifest) nonce f.public_key_copy
        (d.validate_document f.document))
      _
      (check_document-NotUnpinned (d.sha384 f.manifest) nonce f.public_key_copy
        (d.validate_document f.document))
      λ checked.
        bind-NotUnpinned (check_time v now (checked.1)) _ (check_time-NotUnpinned v now (checked.1))
          λ attested.
            bind-NotUnpinned (check_pcrs rel (checked.1)) _ (check_pcrs-NotUnpinned rel (checked.1))
              λ pcrs. ok-NotUnpinned (evidence_of v f rel (checked.0) (checked.1) attested pcrs)

-- ErrUnpinnedRelease is reported only of a revision that no release of the policy claims: the
-- signature, the time window and the measurements of a pinned release never give it.
pub validate-unpinned :
    (d : Deps) (v : Verifier) (f : FetchedEvidence) (nonce : Bytes) (now : Time) (revision : Bytes)
    → validate d v f nonce now ≡ err (unpinned revision)
    → IsUnpinned d v.policy f.manifest revision
unfolding validate
validate-unpinned d v f nonce now revision h = elim (reject-eq-err (bad_state v nonce now) _ _ h) [
  | inl e ↦ absurd (cc (e))
  | inr h ↦ elim (reject-eq-err (not (bytes_eq f.user_data (d.sha384 f.manifest))) _ _ h) [
    | inl e ↦ absurd (cc (e))
    | inr h ↦ elim (bind-eq-err (validate_manifest_against d v.policy f.manifest) _ h) [
      | inl e ↦ check_claims-unpinned d v.policy f.manifest revision e
      | inr (rel, _, e) ↦ absurd (after_claims-NotUnpinned d v f nonce now rel revision e)
    ]
  ]
]
