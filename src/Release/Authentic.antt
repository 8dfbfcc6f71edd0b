-- ===== src/Release/Authentic.antt =====
-- Where a derived policy comes from (internal/release/source.go, verify.go, manifest.go).
use mathlib.Core.Path.{subst}
use dappnode_nexus_sdk.Prelude.{
  ℕ, ◌≤◌, ◌≡◌, refl, ap, true, false, ◌||◌, Option, none, some, ltb, length, is_empty, passed_not,
  passed_eq, passed_ltb,
}
use dappnode_nexus_sdk.Prelude.Bytes.{Bytes, passed_bytes_eq}
use dappnode_nexus_sdk.Prelude.Result.{Result, ok, reject, reject_then, bind_then, ok-injective}
use dappnode_nexus_sdk.Attestation.Policy.{is_revision}
use dappnode_nexus_sdk.Release.Signed.{
  Manifest, ManifestError, empty_manifest, too_large, missing, Sigstore, environment,
  certificate_identity, certificate_oidc_issuer, source_repository, is_version, is_pcr,
  all_zero_hex, check_pcr, validate, validate_decoded, parse_manifest, check_encryption_floor,
  max_manifest_bytes, manifest_schema_version, measurements_schema_version, check_signature, verify,
}

-- What a manifest must say.
pub record IsValid (m : Manifest) : Type 0 where
  pub schema : m.schema_version ≡ manifest_schema_version
  pub measurements : m.measurements_schema ≡ measurements_schema_version
  pub production : m.environment ≡ environment
  pub version : is_version m.version ≡ true
  pub revision : is_revision m.revision ≡ true
  pub pcr0 : (is_pcr m.pcr0 ≡ true) × (all_zero_hex m.pcr0 ≡ false)
  pub pcr1 : (is_pcr m.pcr1 ≡ true) × (all_zero_hex m.pcr1 ≡ false)
  pub pcr2 : (is_pcr m.pcr2 ≡ true) × (all_zero_hex m.pcr2 ≡ false)

check_pcr_then :
    {C : Type 0} (i : ℕ) (value : Bytes) (rest : Result ManifestError Unit) {u : Unit}
    → check_pcr i value rest ≡ ok u
    → ((is_pcr value ≡ true) × (all_zero_hex value ≡ false) → rest ≡ ok u → C)
    → C
check_pcr_then i value rest h k =
    reject_then _ _ _ h λ a h. reject_then _ _ _ h λ z h. k (passed_not a, z) h

validate_sound : (m : Manifest) (u : Unit) → validate m ≡ ok u → IsValid m
unfolding validate
validate_sound m u h = reject_then _ _ _ h λ a h. reject_then _ _ _ h λ b h.
    reject_then _ _ _ h λ c h. reject_then _ _ _ h λ d h. reject_then _ _ _ h λ e h.
      check_pcr_then 0 m.pcr0 _ h λ p h. check_pcr_then 1 m.pcr1 _ h λ q h.
        check_pcr_then 2 m.pcr2 _ h λ r h. record {
          schema = passed_eq _ _ a;
          measurements = passed_eq _ _ b;
          production = passed_bytes_eq _ _ c;
          version = passed_not d;
          revision = passed_not e;
          pcr0 = p;
          pcr1 = q;
          pcr2 = r;
        }

validate_decoded-ok :
    (o : Option Manifest) (m : Manifest) → validate_decoded o ≡ ok m → (o ≡ some m) × IsValid m
validate_decoded-ok none m h = cc
validate_decoded-ok (some x) m h = bind_then (validate x) _ h λ u hu done.
    (ap some (ok-injective done), subst IsValid (ok-injective done) (validate_sound x u hu))

abbrev bounded : (Bytes → Option Manifest) → Bytes → Result ManifestError Manifest
bounded decode b =
    reject (ltb max_manifest_bytes (length b)) too_large (validate_decoded (decode b))

parse_manifest_sound :
    (decode : Bytes → Option Manifest) (b : Bytes) (m : Manifest)
    → parse_manifest decode b ≡ ok m
    → (decode b ≡ some m) × IsValid m
unfolding parse_manifest
parse_manifest_sound decode b m h =
    reject_then (is_empty b) empty_manifest (bounded decode b) h λ _ h.
      reject_then (ltb max_manifest_bytes (length b)) too_large (validate_decoded (decode b)) h
        λ _ h. validate_decoded-ok (decode b) m h

-- The manifest is what the bytes say, the pinned workflow has signed these bytes, and it is a
-- valid production manifest of the pinned repository.
pub record IsAuthentic {B : Type 0} (sig : Sigstore B) (m : Manifest) : Type 0 where
  pub manifest : Bytes
  pub bundle : Bytes
  pub signature : B
  pub decoded : sig.decode_bundle bundle ≡ some signature
  pub signed : sig.signed certificate_oidc_issuer certificate_identity signature manifest ≡ true
  pub says : sig.decode_manifest manifest ≡ some m
  pub small : length manifest ≤ max_manifest_bytes
  pub valid : IsValid m
  pub repository : m.repository ≡ source_repository
  pub encrypted : check_encryption_floor m ≡ true

module _ {B : Type 0} (sig : Sigstore B) where
  check_signature_sound :
      (manifest bundle : Bytes) (o : Option B) (m : Manifest)
      → sig.decode_bundle bundle ≡ o
      → length manifest ≤ max_manifest_bytes
      → check_signature sig manifest o ≡ ok m
      → IsAuthentic sig m
  check_signature_sound manifest bundle none m e small h = absurd (cc)
  check_signature_sound manifest bundle (some b) m e small h = reject_then _ _ _ h λ signed h.
      bind_then (parse_manifest sig.decode_manifest manifest) _ h λ x hx h.
        reject_then _ _ _ h λ repository h. reject_then _ _ _ h λ encrypted h.
          let same = ok-injective h in
          let (says, valid) = parse_manifest_sound sig.decode_manifest manifest x hx in
          subst (IsAuthentic sig) same (record {
            manifest = manifest;
            bundle = bundle;
            signature = b;
            decoded = e;
            signed = passed_not signed;
            says = says;
            small = small;
            valid = valid;
            repository = passed_bytes_eq _ _ repository;
            encrypted = passed_not encrypted;
          })

  -- A manifest that Verify returns is authentic: it is what the bytes say, the pinned workflow has
  -- signed these bytes, and it is a valid production manifest of the pinned repository with the
  -- encryption contract.
  pub verify-IsAuthentic :
      (manifest bundle : Bytes) (m : Manifest)
      → verify sig manifest bundle ≡ ok m
      → IsAuthentic sig m
  unfolding verify
  verify-IsAuthentic manifest bundle m h =
      let checked = check_signature sig manifest (sig.decode_bundle bundle) in
      let sized : Result ManifestError Manifest =
        reject (ltb max_manifest_bytes (length manifest)) too_large checked in
      reject_then (is_empty manifest || is_empty bundle) missing sized h λ _ h.
        reject_then (ltb max_manifest_bytes (length manifest)) too_large checked h λ small h.
          check_signature_sound manifest bundle (sig.decode_bundle bundle) m refl
            (passed_ltb _ _ small) h
