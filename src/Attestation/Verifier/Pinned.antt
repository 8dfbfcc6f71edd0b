-- ===== src/Attestation/Verifier/Pinned.antt =====
-- What evidence proves under a validated policy: its release, its measurements and its window
-- (internal/attestation/verifier.go with policy.go).
use mathlib.Core.Path.{subst}
use dappnode_nexus_sdk.Prelude.{
  ℕ, ◌<◌, ◌≤◌, ◌≡◌, ◌∙◌, ap, sym, Bool, true, false, not, ◌||◌, Option, some, [], ◌∷◌, length,
  arith, ◌==◌,
}
use dappnode_nexus_sdk.Prelude.Bytes.{Bytes}
use dappnode_nexus_sdk.Prelude.Hex.{hex_encode}
use dappnode_nexus_sdk.Prelude.Result.{ok}
use dappnode_nexus_sdk.Prelude.Time.{Time, Duration, pos, negsuc, add, neg, is_nonpos, is_neg}
use dappnode_nexus_sdk.Attestation.Policy.{
  Release, Policy, all_zero, validate as validate_policy, pcr_at,
}
use dappnode_nexus_sdk.Attestation.Policy.Pcr.{IsMeasurement}
use dappnode_nexus_sdk.Attestation.Policy.Lookup.{IsPinned, Pins, release_for-Pins}
use dappnode_nexus_sdk.Attestation.Verifier.Types.{
  Deps, FetchedEvidence, NitroDocument, NitroResult, Evidence, Verifier, expected_root_fingerprint,
}
use dappnode_nexus_sdk.Attestation.Verifier.{validate, or_empty}
use dappnode_nexus_sdk.Attestation.Verifier.Accepted.{Binds, validate_iff}
use dappnode_nexus_sdk.Attestation.Verifier.Measured.{Agrees}

-- The document of the response passed the Nitro verifier under the AWS root; it signs the nonce of
-- this request, the digest of the manifest, the key that the evidence gives out, and the
-- measurements of the one release of the policy that claims the evidence's revision.
pub record Attests (d : Deps) (p : Policy) (f : FetchedEvidence) (nonce : Bytes) (ev : Evidence)
    : Type 0 where
  pub result : NitroResult
  pub doc : NitroDocument
  pub checked : d.validate_document f.document ≡ some (some result)
  pub valid : result.valid ≡ true
  pub trusted : result.chain_trusted ≡ true
  pub root : result.root_fingerprint ≡ expected_root_fingerprint
  pub decoded : result.document ≡ some doc
  pub kept : (ev.proof.document ≡ f.document) × (ev.proof.manifest ≡ f.manifest)
  pub signs_manifest : result.user_data ≡ d.sha384 f.manifest
  pub signs_nonce : result.nonce ≡ nonce
  pub nonce_is : ev.proof.nonce ≡ nonce
  pub key_is : ev.public_key ≡ result.public_key
  pub key_nonzero : all_zero result.public_key ≡ false
  pub rel : Release
  pub pinned : IsPinned ev.proof.source_revision p.releases rel
  pub at0 : Bytes
  pub at1 : Bytes
  pub at2 : Bytes
  pub signs0 : pcr_at 0 doc.pcrs ≡ some at0
  pub signs1 : pcr_at 1 doc.pcrs ≡ some at1
  pub signs2 : pcr_at 2 doc.pcrs ≡ some at2
  pub pcrs_are : ev.proof.pcrs ≡ (0, at0) ∷ (1, at1) ∷ (2, at2) ∷ []
  pub pcr0 : hex_encode at0 ≡ rel.pcr0
  pub pcr1 : hex_encode at1 ≡ rel.pcr1
  pub pcr2 : hex_encode at2 ≡ rel.pcr2

same_text :
    (i : ℕ) (rel : Release) (o : Option Bytes) (a m text : Bytes)
    → Agrees i rel o a
    → (pcr_at i rel.pcrs ≡ some m) × IsMeasurement text m
    → hex_encode a ≡ text
same_text i rel o a m text g (h, k) = ap hex_encode (g.pinned ∙ ap or_empty h) ∙ sym k.canonical

module _ (d : Deps) (v : Verifier) (f : FetchedEvidence) (nonce : Bytes) (now : Time)
    (ev : Evidence) (accepted : validate d v f nonce now ≡ ok ev) where
  b : Binds d v f nonce now ev
  b = (validate_iff d v f nonce now ev).0 accepted

  -- Under a policy that Policy.validate has accepted, the evidence that validate returns attests the
  -- nonce of the request, its own key, and one pinned release with its three measurements.
  pub validate-Attests :
      (source : Policy) → validate_policy source ≡ ok v.policy → Attests d v.policy f nonce ev
  validate-Attests source valid =
      let bound = b in
      let rel = bound.rel in
      let revision = bound.claims.claims.source_revision in
      let pins : IsPinned revision v.policy.releases rel =
        subst (Pins revision v.policy.releases) bound.claims.pinned
          (release_for-Pins source v.policy revision valid) in
      let m = pins.measures in
      let s = ap (λ (e : Evidence). e.proof.source_revision) bound.made in
      record {
        result = bound.result;
        doc = bound.doc;
        checked = bound.validated;
        valid = bound.signs.valid;
        trusted = bound.signs.trusted;
        root = bound.signs.root;
        decoded = bound.signs.decoded;
        kept = (
          ap (λ (e : Evidence). e.proof.document) bound.made,
          ap (λ (e : Evidence). e.proof.manifest) bound.made,
        );
        signs_manifest = bound.signs.digest_is;
        signs_nonce = bound.signs.nonce_is;
        nonce_is = ap (λ (e : Evidence). e.proof.nonce) bound.made ∙ bound.signs.nonce_is;
        key_is = ap (λ (e : Evidence). e.public_key) bound.made;
        key_nonzero = bound.signs.key_nonzero;
        rel = rel;
        pinned = subst (λ r. IsPinned r v.policy.releases rel) (sym pins.claims ∙ sym s) pins;
        at0 = bound.measured.at0;
        at1 = bound.measured.at1;
        at2 = bound.measured.at2;
        signs0 = bound.measured.pcr0.attested;
        signs1 = bound.measured.pcr1.attested;
        signs2 = bound.measured.pcr2.attested;
        pcrs_are = ap (λ (e : Evidence). e.proof.pcrs) bound.made ∙ bound.measured.retained;
        pcr0 = same_text 0 rel _ _ _ _ bound.measured.pcr0 m.pcr0;
        pcr1 = same_text 1 rel _ _ _ _ bound.measured.pcr1 m.pcr1;
        pcr2 = same_text 2 rel _ _ _ _ bound.measured.pcr2 m.pcr2;
      }

third_passed : (a b c d : Bool) → (a || b || c || d) ≡ false → c ≡ false
third_passed a b c d h = ground arith

-- Adding a positive duration to a time at most that long ago reaches now.
window_lem :
    (now attested : Time) (age : Duration)
    → is_nonpos age ≡ false
    → add now (neg age) ≤ attested
    → (now ≤ add attested age) × (attested < add attested age)
window_lem now attested (pos n) h k = ground arith
window_lem now attested (negsuc n) h k = absurd (ground arith)

-- Accepted evidence expires one maximum age, which is positive, after it was attested. It has not
-- expired when it is accepted, and was attested no later than the allowed skew after that.
pub validate-window :
    (d : Deps) (v : Verifier) (f : FetchedEvidence) (nonce : Bytes) (now : Time) (ev : Evidence)
    → validate d v f nonce now ≡ ok ev
    → (ev.expires_at ≡ add ev.attested_at v.max_age)
      × (now ≤ ev.expires_at)
      × (ev.attested_at < ev.expires_at)
      × (ev.attested_at ≤ add now v.max_future_skew)
validate-window d v f nonce now ev h =
    let bound = (validate_iff d v f nonce now ev).0 h in
    let age =
      third_passed (not (length nonce == 32)) (now == 0) (is_nonpos v.max_age)
        (is_neg v.max_future_skew) bound.state in
    let (late, some_time) = window_lem now bound.attested v.max_age age bound.fresh.not_stale in
    let e = ap (λ (e : Evidence). e.expires_at) bound.made in
    let a = ap (λ (e : Evidence). e.attested_at) bound.made in
    (
      e ∙ sym (ap (λ t. add t v.max_age) a),
      omega (arith, late, e),
      omega (arith, some_time, e, a),
      omega (arith, bound.fresh.not_future, a),
    )
