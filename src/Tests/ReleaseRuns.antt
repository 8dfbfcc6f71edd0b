-- ===== src/Tests/ReleaseRuns.antt =====
-- A run of the source of releases.
use dappnode_nexus_sdk.Prelude.{
  ℕ, zero, suc, ◌≡◌, refl, ap, true, Option, none, some, List, [], ◌∷◌, ◌++◌, map, take, drop,
  length, arith,
}
use dappnode_nexus_sdk.Prelude.Bytes.{Bytes, codes, bytes_eq}
use dappnode_nexus_sdk.Prelude.Hex.{hex_encode, hex_digit, hex_decode, hex_value}
use dappnode_nexus_sdk.Prelude.Result.{Result, ok}
use dappnode_nexus_sdk.Attestation.Policy.{
  Release, Policy, e2ee_contract, combine, all_zero, all_hex, is_revision, decode_pcr, contains,
  validate_release, validate_releases, e2ee_eq, parse_policy,
}
use dappnode_nexus_sdk.Attestation.Policy
use dappnode_nexus_sdk.Release.Signed.{
  Manifest, Sigstore, release_of, derived_policy, verify, source_repository, environment,
  is_version, version_tail, all_zero_hex, parse_manifest, check_encryption_floor, policy_of,
}
use dappnode_nexus_sdk.Release.Signed
use dappnode_nexus_sdk.Release.Authentic.{IsAuthentic, verify-IsAuthentic}
use dappnode_nexus_sdk.Release.Derived.{IsCodec, IsDerived, source_policy-IsDerived}
use dappnode_nexus_sdk.Release.{
  SignedRelease, SourceError, Web, source_policy, fetch, cached, cached_loop,
}
use dappnode_nexus_sdk.Release
use dappnode_nexus_sdk.Tests.Fixtures.{revision, measurement_text, policy}

-- Texts with their lengths in front.
abbrev with_text : Bytes → Bytes → Bytes
with_text s rest = length s ∷ s ++ rest

abbrev with_release : Release → Bytes → Bytes
with_release r rest =
    with_text r.source_revision (with_text r.pcr0 (with_text r.pcr1 (with_text r.pcr2 rest)))

unfoldable write_releases : List Release → Bytes
write_releases [] = []
write_releases (r ∷ rs) = with_release r (write_releases rs)

unfoldable read_text : {A : Type 0} → Bytes → (Bytes → Bytes → A) → A
read_text [] k = k [] []
read_text (n ∷ b) k = k (take n b) (drop n b)

unfoldable read_releases : ℕ → Bytes → List Release
unfolding read_text
read_releases zero b = []
read_releases (suc n) b = read_text b λ revision b. read_text b λ a b. read_text b λ c b.
    read_text b λ d b.
      record { source_revision = revision; pcr0 = a; pcr1 = c; pcr2 = d; pcrs = [] }
      ∷ read_releases n b

unfoldable encode : Policy → Bytes
unfolding write_releases
encode p = length p.releases ∷ write_releases p.releases

unfoldable decode : Bytes → Option Policy
unfolding read_releases
decode [] = none
decode (n ∷ b) = some (record (derived_policy []) { releases = read_releases n b })

take_text : (s rest : Bytes) → take (length s) (s ++ rest) ≡ s
take_text [] rest = refl
take_text (c ∷ s) rest = ap (◌∷◌ c) (take_text s rest)

drop_text : (s rest : Bytes) → drop (length s) (s ++ rest) ≡ rest
drop_text [] rest = refl
drop_text (c ∷ s) rest = drop_text s rest

read_back :
    (ms : List Manifest)
    → read_releases (length (map release_of ms)) (write_releases (map release_of ms))
      ≡ map release_of ms
unfolding read_releases write_releases read_text
read_back [] = refl
read_back (m ∷ ms) = simp (take_text, drop_text) (ap (◌∷◌ (release_of m)) (read_back ms))

codec : IsCodec encode decode
unfolding IsCodec encode decode
codec ms a = ap (λ rs. some (record (derived_policy []) { releases = rs })) (read_back ms)

abbrev manifest : Manifest
manifest = record {
  schema_version = 2;
  version = codes "v1.2.3";
  environment = environment;
  repository = source_repository;
  revision = revision;
  measurements_schema = 2;
  pcr0 = measurement_text;
  pcr1 = measurement_text;
  pcr2 = measurement_text;
  protocol = e2ee_contract.protocol;
  suite = e2ee_contract.suite;
  endpoint = e2ee_contract.endpoint;
}

-- Every bundle is a signature of the pinned workflow, and every text is the manifest.
abbrev sigstore : Sigstore Bytes
sigstore = record {
  decode_bundle = λ b. some b;
  signed = λ issuer san bundle artifact. true;
  decode_manifest = λ b. some manifest;
}

-- No network.
abbrev offline : Web
offline = record {
  parse_url = λ u. none;
  get = λ u. none;
  media_type = λ t. some t;
  decode_listings = λ b. none;
  endpoint = λ r n. r;
}

abbrev signed : SignedRelease
signed = record { manifest = codes "manifest"; bundle = codes "bundle" }

verified : verify sigstore signed.manifest signed.bundle ≡ ok manifest
unfolding verify parse_manifest Signed.validate check_encryption_floor bytes_eq is_version
    version_tail is_revision all_hex all_zero_hex
verified = refl

verify-IsAuthentic_example : IsAuthentic sigstore manifest
verify-IsAuthentic_example =
    verify-IsAuthentic sigstore signed.manifest signed.bundle manifest verified

abbrev cache : Option (Result SourceError (List SignedRelease))
cache = some (ok (signed ∷ []))

derived : source_policy offline sigstore encode decode (codes "owner/name") 3 cache ≡ some policy
unfolding source_policy fetch Release.list_releases Release.download Release.check_download_url
    cached cached_loop verify parse_manifest Signed.validate check_encryption_floor bytes_eq
    is_version version_tail is_revision all_hex all_zero_hex policy_of encode write_releases decode
    read_releases read_text parse_policy Policy.validate validate_releases validate_release
    decode_pcr all_zero combine hex_encode hex_digit hex_decode hex_value contains e2ee_eq
derived = refl

source_policy-IsDerived_example : IsDerived offline sigstore 3 policy
source_policy-IsDerived_example =
    source_policy-IsDerived offline sigstore encode decode (codes "owner/name") 3 cache policy codec
      (omega arith) derived
