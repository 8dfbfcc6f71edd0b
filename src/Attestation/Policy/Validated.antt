-- ===== src/Attestation/Policy/Validated.antt =====
-- What Policy.validate accepts, and what the lookup of a release gives afterwards
-- (internal/attestation/policy.go).
use mathlib.Core.Path.{subst}
use dappnode_nexus_sdk.Prelude.{
  ℕ, ◌+◌, ◌≤◌, ◌≡◌, ◌≢◌, ◌↔◌, refl, ap, sym, ◌∙◌, true, false, List, [], ◌∷◌, arith, ◌==◌, ltb,
  length, All, passed_not, passed_eq, ==_iff, passed_left, passed_right, passed_ltb, passes_ltb,
}
use dappnode_nexus_sdk.Prelude.Bytes.{Bytes, bytes_eq_iff, bytes_eq_refl, bytes_ne, passed_bytes_eq}
use dappnode_nexus_sdk.Prelude.Result.{
  Result, ok, err, reject, reject_then, bind_then, ok-injective,
}
use dappnode_nexus_sdk.Attestation.Policy.{
  ReleaseError, Release, Policy, PolicyError, E2eePolicy, decode_pcr, validate_release, in_release,
  duplicate_revision, validate_releases, contains, is_revision, validate, e2ee_eq, e2ee_contract,
  policy_schema_version, manifest_schema_version, gateway_workload, gateway_profile,
  max_policy_releases,
}
use dappnode_nexus_sdk.Attestation.Policy.Pcr.{IsMeasurement, decode_pcr_iff}

-- `r'` is `r` with the measurements that its three texts stand for.
pub record IsDecoded (r r' : Release) : Type 0 where
  pub revision : is_revision r.source_revision ≡ true
  pub at0 : Bytes
  pub at1 : Bytes
  pub at2 : Bytes
  pub pcr0 : IsMeasurement r.pcr0 at0
  pub pcr1 : IsMeasurement r.pcr1 at1
  pub pcr2 : IsMeasurement r.pcr2 at2
  pub filled : r' ≡ record r { pcrs = (0, at0) ∷ (1, at1) ∷ (2, at2) ∷ [] }

validate_release_sound : (r r' : Release) → validate_release r ≡ ok r' → IsDecoded r r'
unfolding validate_release
validate_release_sound r r' h = reject_then _ _ _ h λ revision rest.
    bind_then (decode_pcr 0 r.pcr0) _ rest λ a ha rest.
      bind_then (decode_pcr 1 r.pcr1) _ rest λ b hb rest.
        bind_then (decode_pcr 2 r.pcr2) _ rest λ c hc done. record {
          revision = passed_not revision;
          at0 = a;
          at1 = b;
          at2 = c;
          pcr0 = (decode_pcr_iff 0 r.pcr0 a).0 ha;
          pcr1 = (decode_pcr_iff 1 r.pcr1 b).0 hb;
          pcr2 = (decode_pcr_iff 2 r.pcr2 c).0 hc;
          filled = sym (ok-injective done);
        }

validate_release_complete : (r r' : Release) → IsDecoded r r' → validate_release r ≡ ok r'
unfolding validate_release
validate_release_complete r r' d =
    rw
      (
        d.revision,
        (decode_pcr_iff 0 r.pcr0 d.at0).1 d.pcr0,
        (decode_pcr_iff 1 r.pcr1 d.at1).1 d.pcr1,
        (decode_pcr_iff 2 r.pcr2 d.at2).1 d.pcr2,
      )
      (ap ok (sym d.filled))

abbrev pub AllDecoded : List Release → List Release → Type 0
AllDecoded [] [] = Unit
AllDecoded [] (r' ∷ rs') = ⊥
AllDecoded (r ∷ rs) [] = ⊥
AllDecoded (r ∷ rs) (r' ∷ rs') = IsDecoded r r' × AllDecoded rs rs'

-- No two releases claim one revision.
abbrev pub Distinct : List Release → Type 0
Distinct [] = Unit
Distinct (r ∷ rs) = All (λ q. q.source_revision ≢ r.source_revision) rs × Distinct rs

abbrev Unseen : List Bytes → List Release → Type 0
Unseen seen = All (λ r. contains r.source_revision seen ≡ false)

module _ (seen : List Bytes) where
  Unseen-step :
      (r : Release) (rs : List Release)
      → Unseen (r.source_revision ∷ seen) rs
      → Unseen seen rs × All (λ q. q.source_revision ≢ r.source_revision) rs
  unfolding contains
  Unseen-step r [] h = (tt, tt)
  Unseen-step r (q ∷ rs) (h, hs) =
      let (new, other) = Unseen-step r rs hs in
      ((passed_right _ _ h, new), (λ e. bytes_ne _ _ (passed_left _ _ h) (sym e), other))

  Unseen-back :
      (r : Release) (rs : List Release)
      → Unseen seen rs
      → All (λ q. q.source_revision ≢ r.source_revision) rs
      → Unseen (r.source_revision ∷ seen) rs
  unfolding contains
  Unseen-back r [] h d = tt
  Unseen-back r (q ∷ rs) (h, hs) (d, ds) =
      (ground (arith, bytes_eq_iff r.source_revision q.source_revision), Unseen-back r rs hs ds)

AllDecoded-nil : {rs' : List Release} → [] ≡ rs' → AllDecoded [] rs'
AllDecoded-nil {rs' = []} e = tt
AllDecoded-nil {rs' = r ∷ rs} e = absurd (cc)

AllDecoded-cons :
    (r : Release) (rs : List Release) {a : Release} {b rs' : List Release}
    → a ∷ b ≡ rs'
    → IsDecoded r a
    → AllDecoded rs b
    → AllDecoded (r ∷ rs) rs'
AllDecoded-cons r rs e d ds = subst (AllDecoded (r ∷ rs)) e (d, ds)

in_release-ok :
    (i : ℕ) (m : Result ReleaseError Release) {a : Release} → in_release i m ≡ ok a → m ≡ ok a
in_release-ok i (ok r) h = cc
in_release-ok i (err e) h = cc

-- The duplicate test of the loop, before the later releases.
abbrev kept :
    List Bytes → Release → Result PolicyError (List Release) → Result PolicyError (List Release)
kept seen r rest =
    reject (contains r.source_revision seen) (duplicate_revision r.source_revision) rest

validate_releases_sound :
    (i : ℕ) (seen : List Bytes) (rs rs' : List Release)
    → validate_releases i seen rs ≡ ok rs'
    → AllDecoded rs rs' × Unseen seen rs × Distinct rs
unfolding validate_releases
validate_releases_sound i seen [] rs' h = (AllDecoded-nil (ok-injective h), tt, tt)
validate_releases_sound i seen (r ∷ rs) rs' h =
    let later = validate_releases_sound (i + 1) (r.source_revision ∷ seen) rs in
    bind_then (in_release i (validate_release r)) _ h λ a ha rest.
      bind_then (kept seen r (validate_releases (i + 1) (r.source_revision ∷ seen) rs)) _ rest
        λ b hb done.
          reject_then (contains r.source_revision seen) (duplicate_revision r.source_revision)
            (validate_releases (i + 1) (r.source_revision ∷ seen) rs) hb
            λ unseen more.
              let (decoded, unseen_later, distinct) = later b more in
              let (new, other) = Unseen-step seen r rs unseen_later in
              (
                AllDecoded-cons r rs (ok-injective done)
                    (validate_release_sound r a (in_release-ok i (validate_release r) ha)) decoded,
                (unseen, new),
                (other, distinct),
              )

validate_releases_complete :
    (i : ℕ) (seen : List Bytes) (rs rs' : List Release)
    → AllDecoded rs rs'
    → Unseen seen rs
    → Distinct rs
    → validate_releases i seen rs ≡ ok rs'
unfolding validate_releases
validate_releases_complete i seen [] [] d u n = refl
validate_releases_complete i seen [] (r' ∷ rs') d u n = absurd d
validate_releases_complete i seen (r ∷ rs) [] d u n = absurd d
validate_releases_complete i seen (r ∷ rs) (r' ∷ rs') (d, ds) (u, us) (n, ns) =
    rw
      (
        validate_release_complete r r' d,
        u,
        validate_releases_complete (i + 1) (r.source_revision ∷ seen) rs rs' ds
            (Unseen-back seen r rs us n) ns,
      )
      refl

-- The e2ee contract is compiled in: every field of it must agree.
e2ee_eq_sound : (a b : E2eePolicy) → e2ee_eq a b ≡ true → a ≡ b
unfolding e2ee_eq
e2ee_eq_sound a b h = ground (
  arith,
  bytes_eq_iff a.protocol b.protocol,
  bytes_eq_iff a.suite b.suite,
  bytes_eq_iff a.endpoint b.endpoint,
)

e2ee_eq_refl : (a : E2eePolicy) → e2ee_eq a a ≡ true
unfolding e2ee_eq
e2ee_eq_refl a =
    ground (arith, bytes_eq_refl a.protocol, bytes_eq_refl a.suite, bytes_eq_refl a.endpoint)

pub e2ee_eq_iff : (a b : E2eePolicy) → (e2ee_eq a b ≡ true) ↔ (a ≡ b)
e2ee_eq_iff a b = (e2ee_eq_sound a b, λ e. rw e (e2ee_eq_refl b))

passed_nonempty : (rs : List Release) → (length rs == 0) ≡ false → 1 ≤ length rs
passed_nonempty rs h = ground arith

nonempty_test : (rs : List Release) → 1 ≤ length rs → (length rs == 0) ≡ false
nonempty_test rs h = ground arith

-- What a policy must be: the compiled-in versions and contract, one to four releases with distinct
-- revisions, each with a full revision and three measurements; `p'` has these decoded.
pub record IsPolicy (p p' : Policy) : Type 0 where
  pub schema : p.schema_version ≡ policy_schema_version
  pub manifest : p.manifest_schema ≡ manifest_schema_version
  pub workload : p.workload ≡ gateway_workload
  pub profile : p.profile ≡ gateway_profile
  pub e2ee : p.e2ee ≡ e2ee_contract
  pub some_release : 1 ≤ length p.releases
  pub few_releases : length p.releases ≤ max_policy_releases
  pub decoded : AllDecoded p.releases p'.releases
  pub distinct : Distinct p.releases
  pub rest : p' ≡ record p { releases = p'.releases }

validate_sound : (p p' : Policy) → validate p ≡ ok p' → IsPolicy p p'
unfolding validate
validate_sound p p' h = reject_then _ _ _ h λ a h. reject_then _ _ _ h λ b h.
    reject_then _ _ _ h λ c h. reject_then _ _ _ h λ d h. reject_then _ _ _ h λ e h.
      reject_then _ _ _ h λ f h. reject_then _ _ _ h λ g h.
        bind_then (validate_releases 0 [] p.releases) _ h λ rs hrs done.
          let (decoded, _, distinct) = validate_releases_sound 0 [] p.releases rs hrs in
          let done = ok-injective done in
          let same = ap (λ (q : Policy). q.releases) done in
          record {
            schema = passed_eq _ _ a;
            manifest = passed_eq _ _ b;
            workload = passed_bytes_eq _ _ c;
            profile = passed_bytes_eq _ _ d;
            e2ee = e2ee_eq_sound _ _ (passed_not e);
            some_release = passed_nonempty p.releases f;
            few_releases = passed_ltb _ _ g;
            decoded = subst (AllDecoded p.releases) same decoded;
            distinct = distinct;
            rest = sym done ∙ ap (λ (l : List Release). record p { releases = l }) same;
          }

Unseen-nil : (rs : List Release) → Unseen [] rs
unfolding contains
Unseen-nil [] = tt
Unseen-nil (r ∷ rs) = (refl, Unseen-nil rs)

validate_complete : (p p' : Policy) → IsPolicy p p' → validate p ≡ ok p'
unfolding validate
validate_complete p p' v =
    let few : ltb max_policy_releases (length p.releases) ≡ false = passes_ltb _ _ v.few_releases in
    let nonempty : (length p.releases == 0) ≡ false = nonempty_test p.releases v.some_release in
    rw
      (
        (==_iff p.schema_version policy_schema_version).1 v.schema,
        (==_iff p.manifest_schema manifest_schema_version).1 v.manifest,
        (bytes_eq_iff p.workload gateway_workload).1 v.workload,
        (bytes_eq_iff p.profile gateway_profile).1 v.profile,
        (e2ee_eq_iff p.e2ee e2ee_contract).1 v.e2ee,
        nonempty,
        few,
        validate_releases_complete 0 [] p.releases p'.releases v.decoded (Unseen-nil p.releases)
            v.distinct,
      )
      (ap ok (sym v.rest))

-- validate accepts exactly the well-formed policies, and decodes their measurements.
pub policy_validate_iff : (p p' : Policy) → (validate p ≡ ok p') ↔ IsPolicy p p'
policy_validate_iff p p' = (validate_sound p p', validate_complete p p')
