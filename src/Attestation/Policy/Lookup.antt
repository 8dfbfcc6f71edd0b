-- ===== src/Attestation/Policy/Lookup.antt =====
-- The release that a policy pins for an attested revision (internal/attestation/policy.go).
use mathlib.Core.Path.{subst}
use dappnode_nexus_sdk.Prelude.{
  ◌≡◌, ◌≢◌, refl, ap, sym, ◌∙◌, Option, none, some, List, [], ◌∷◌, ◌++◌, All, Bool-cases, inl, inr,
}
use dappnode_nexus_sdk.Prelude.Bytes.{Bytes, bytes_eq, bytes_eq_iff, bytes_ne}
use dappnode_nexus_sdk.Prelude.Result.{ok}
use dappnode_nexus_sdk.Attestation.Policy.{Release, Policy, validate, release_for, pcr_at}
use dappnode_nexus_sdk.Attestation.Policy.Pcr.{IsMeasurement}
use dappnode_nexus_sdk.Attestation.Policy.Validated.{
  IsDecoded, AllDecoded, Distinct, policy_validate_iff,
}

-- The measurements that a release holds are those of its own three texts.
pub record Measures (r : Release) : Type 0 where
  pub at0 : Bytes
  pub at1 : Bytes
  pub at2 : Bytes
  pub pcr0 : (pcr_at 0 r.pcrs ≡ some at0) × IsMeasurement r.pcr0 at0
  pub pcr1 : (pcr_at 1 r.pcrs ≡ some at1) × IsMeasurement r.pcr1 at1
  pub pcr2 : (pcr_at 2 r.pcrs ≡ some at2) × IsMeasurement r.pcr2 at2

-- `r` is in the list, claims the revision and measures itself, and no other release of the list
-- claims the revision.
pub record IsPinned (revision : Bytes) (rs : List Release) (r : Release) : Type 0 where
  pub claims : r.source_revision ≡ revision
  pub before : List Release
  pub after : List Release
  pub listed : rs ≡ before ++ r ∷ after
  pub alone_before : All (λ q. q.source_revision ≢ revision) before
  pub alone_after : All (λ q. q.source_revision ≢ revision) after
  pub measures : Measures r

abbrev pub Pins : Bytes → List Release → Option Release → Type 0
Pins revision rs none = All (λ q. q.source_revision ≢ revision) rs
Pins revision rs (some r) = IsPinned revision rs r

IsDecoded-Measures : {r r' : Release} → IsDecoded r r' → Measures r'
unfolding pcr_at
IsDecoded-Measures d = subst Measures (sym d.filled) (record {
  at0 = d.at0;
  at1 = d.at1;
  at2 = d.at2;
  pcr0 = (refl, d.pcr0);
  pcr1 = (refl, d.pcr1);
  pcr2 = (refl, d.pcr2);
})

IsDecoded-revision : {r r' : Release} → IsDecoded r r' → r'.source_revision ≡ r.source_revision
IsDecoded-revision d = ap (λ (q : Release). q.source_revision) d.filled

All-revision :
    (a b : Bytes) (rs : List Release)
    → a ≡ b
    → All (λ q. q.source_revision ≢ a) rs
    → All (λ q. q.source_revision ≢ b) rs
All-revision a b rs e h = subst (λ c. All (λ q. q.source_revision ≢ c) rs) e h

decoded_ne :
    (revision : Bytes) (rs rs' : List Release)
    → AllDecoded rs rs'
    → All (λ q. q.source_revision ≢ revision) rs
    → All (λ q. q.source_revision ≢ revision) rs'
decoded_ne revision [] [] d h = tt
decoded_ne revision [] (r' ∷ rs') d h = absurd d
decoded_ne revision (r ∷ rs) [] d h = absurd d
decoded_ne revision (r ∷ rs) (r' ∷ rs') (d, ds) (h, hs) =
    (λ e. h (sym (IsDecoded-revision d) ∙ e), decoded_ne revision rs rs' ds hs)

Pins-cons :
    (revision : Bytes) (r : Release) (rs : List Release) (o : Option Release)
    → r.source_revision ≢ revision
    → Pins revision rs o
    → Pins revision (r ∷ rs) o
Pins-cons revision r rs none h p = (h, p)
Pins-cons revision r rs (some q) h p = record {
  claims = p.claims;
  before = r ∷ p.before;
  after = p.after;
  listed = ap (◌∷◌ r) p.listed;
  alone_before = (h, p.alone_before);
  alone_after = p.alone_after;
  measures = p.measures;
}

release_for-decoded :
    (revision : Bytes) (rs rs' : List Release)
    → AllDecoded rs rs'
    → Distinct rs
    → Pins revision rs' (release_for revision rs')
unfolding release_for
release_for-decoded revision [] [] d n = tt
release_for-decoded revision [] (r' ∷ rs') d n = absurd d
release_for-decoded revision (r ∷ rs) [] d n = absurd d
release_for-decoded revision (r ∷ rs) (r' ∷ rs') (d, ds) (n, ns) =
    elim (Bool-cases (bytes_eq r'.source_revision revision)) [
      | inl e ↦
          let same = (bytes_eq_iff r'.source_revision revision).0 e in
          rw e (record {
            claims = same;
            before = [];
            after = rs';
            listed = refl;
            alone_before = tt;
            alone_after =
                All-revision r.source_revision revision rs' (sym (IsDecoded-revision d) ∙ same)
                  (decoded_ne r.source_revision rs rs' ds n);
            measures = IsDecoded-Measures d;
          })
      | inr e ↦ rw e (
          Pins-cons revision r' rs' (release_for revision rs') (bytes_ne _ _ e)
            (release_for-decoded revision rs rs' ds ns))
    ]

-- In a validated policy a revision is pinned by one release at most, with that release's own
-- measurements: measurements of different releases are never combined. A revision that no release
-- claims is not pinned.
pub release_for-Pins :
    (p p' : Policy) (revision : Bytes)
    → validate p ≡ ok p'
    → Pins revision p'.releases (release_for revision p'.releases)
release_for-Pins p p' revision h =
    let v = (policy_validate_iff p p').0 h in
    release_for-decoded revision p.releases p'.releases v.decoded v.distinct
