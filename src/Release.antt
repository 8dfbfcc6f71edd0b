-- ===== src/Release.antt =====
-- internal/release/source.go: the source of signed Gateway releases.
-- net/url, mime and the HTTP client are the parameter `Web`, encoding/json and Sigstore those of
-- Signed. What the cache loads is the argument `cached`; what is given to it to store is the
-- second result of `fetch`.
pub mod Signed
pub mod Authentic
pub mod Derived
pub mod Cache
pub mod Repository
use mathlib.Core.List.{reverse}
use dappnode_nexus_sdk.Prelude.{
  ℕ, suc, ◌-◌, ◌*◌, ◌^◌, Bool, true, false, not, ◌&&◌, ◌||◌, Option, none, some, List, [], ◌∷◌,
  ◌++◌, map, ltb, leb, ◌==◌, if◌then◌else◌, length, is_empty, drop,
}
use dappnode_nexus_sdk.Prelude.Bytes.{Bytes, codes, bytes_eq}
use dappnode_nexus_sdk.Prelude.Result.{Result, ok, err, ◌>>=◌, reject}
use dappnode_nexus_sdk.Prelude.Time.{pos}
use dappnode_nexus_sdk.Http.{HttpResponse}
use dappnode_nexus_sdk.Jsonutil.{ReadLimitError, read_all_limited}
use dappnode_nexus_sdk.Attestation.Policy.{Policy, PolicyError, max_policy_releases}
use dappnode_nexus_sdk.Release.Signed.{
  Manifest, ManifestError, Sigstore, max_manifest_bytes, verify, policy_of,
}

abbrev pub manifest_suffix : Bytes
manifest_suffix = codes ".release.json"

abbrev pub bundle_suffix : Bytes
bundle_suffix = codes ".release.json.sigstore.json"

abbrev pub max_release_list_bytes : ℕ
max_release_list_bytes = 2 ^ 20

abbrev pub max_bundle_bytes : ℕ
max_bundle_bytes = 512 * 2 ^ 10

abbrev pub max_assets_per_release : ℕ
max_assets_per_release = 32

abbrev pub max_redirects : ℕ
max_redirects = 5

-- The keys of allowedDownloadHosts.
abbrev pub allowed_download_hosts : List Bytes
allowed_download_hosts =
    codes "api.github.com"
    ∷ codes "github.com"
    ∷ codes "objects.githubusercontent.com"
    ∷ codes "release-assets.githubusercontent.com"
    ∷ []

pub record SignedRelease : Type 0 where
  pub manifest : Bytes
  pub bundle : Bytes

pub record Url : Type 0 where
  pub scheme : Bytes
  pub has_user : Bool
  pub hostname : Bytes

pub record Asset : Type 0 where
  pub name : Bytes
  pub url : Bytes

pub record ReleaseListing : Type 0 where
  pub draft : Bool
  pub prerelease : Bool
  pub published_at : Bytes
  pub assets : List Asset

pub record Candidate : Type 0 where
  pub manifest_url : Bytes
  pub bundle_url : Bytes
  pub published_at : Bytes

pub data SourceError : Type 0 where
  bad_url not_https host_refused request_failed bad_content_type undecodable : SourceError
  http_status : ℕ → SourceError
  read_failed : ReadLimitError → SourceError
  no_candidates no_signed_releases no_cache cache_empty too_many_redirects : SourceError
  unverified : ManifestError → SourceError

-- The packages that the source calls; `get` follows redirects as the client's check lets it.
pub record Web : Type 0 where
  pub parse_url : Bytes → Option Url
  pub get : Bytes → Option HttpResponse
  pub media_type : Bytes → Option Bytes
  pub decode_listings : Bytes → Option (List ReleaseListing)
  pub endpoint : Bytes → ℕ → Bytes

unfoldable pub contains : Bytes → List Bytes → Bool
unfolding bytes_eq
contains s [] = false
contains s (t ∷ ts) = bytes_eq t s || contains s ts

abbrev pub check_url : Option Url → Result SourceError Unit
check_url none = err bad_url
check_url (some u) =
    reject (not (bytes_eq u.scheme (codes "https")) || u.has_user) not_https
      (reject (not (contains u.hostname allowed_download_hosts)) host_refused (ok tt))

-- strings.HasSuffix
unfoldable pub has_suffix : Bytes → Bytes → Bool
unfolding bytes_eq
has_suffix s suffix =
    leb (length suffix) (length s) && bytes_eq (drop (length s - length suffix) s) suffix

-- The loop over the assets: the last of each kind wins.
unfoldable pub pick_assets : Bytes → Bytes → List Asset → Bytes × Bytes
unfolding has_suffix
pick_assets manifest bundle [] = (manifest, bundle)
pick_assets manifest bundle (a ∷ rest) =
    let as_bundle = pick_assets manifest a.url rest in
    let as_manifest = pick_assets a.url bundle rest in
    let as_neither = pick_assets manifest bundle rest in
    if has_suffix a.name bundle_suffix
    then as_bundle
    else (if has_suffix a.name manifest_suffix then as_manifest else as_neither)

abbrev pub is_skipped : ReleaseListing → Bool
is_skipped l = l.draft || l.prerelease || ltb max_assets_per_release (length l.assets)

abbrev pub candidate_of : ReleaseListing → Bytes × Bytes → Option Candidate
candidate_of l (manifest, bundle) =
    if is_empty manifest || is_empty bundle
    then none
    else some
        (record { manifest_url = manifest; bundle_url = bundle; published_at = l.published_at })

unfoldable pub candidate : ReleaseListing → Option Candidate
unfolding pick_assets
candidate l = if is_skipped l then none else candidate_of l (pick_assets [] [] l.assets)

abbrev pub keep_some {ℓ} : {A : Type ℓ} → Option A → List A → List A
keep_some none xs = xs
keep_some (some x) xs = x ∷ xs

unfoldable pub candidates : List ReleaseListing → List Candidate
unfolding candidate
candidates [] = []
candidates (l ∷ ls) = keep_some (candidate l) (candidates ls)

-- a > b on strings.
unfoldable pub string_gt : Bytes → Bytes → Bool
string_gt [] b = false
string_gt (x ∷ a) [] = true
string_gt (x ∷ a) (y ∷ b) = ltb y x || (x == y && string_gt a b)

-- sort.SliceStable by publishedAt, the latest first.
unfoldable pub insert : Candidate → List Candidate → List Candidate
insert c [] = c ∷ []
insert c (d ∷ ds) =
    let rest = insert c ds in
    if string_gt d.published_at c.published_at then d ∷ rest else c ∷ d ∷ ds

unfoldable pub sort_stable : List Candidate → List Candidate
unfolding insert
sort_stable [] = []
sort_stable (c ∷ cs) = insert c (sort_stable cs)

-- The append and the break of the loop in fetch, and of the one in cached.
abbrev pub after {ℓ} : {A : Type ℓ} → ℕ → List A → Option A → (List A → List A) → List A
after count acc none rest = rest acc
after count acc (some m) rest =
    let all = acc ++ m ∷ [] in if length all == count then all else rest all

-- A policy, or one of the errors of release.Policy.
abbrev pub usable : Option (Result PolicyError Policy) → Option Policy
usable none = none
usable (some (err e)) = none
usable (some (ok p)) = some p

module _ {B : Type 0} (web : Web) (sig : Sigstore B) where
  unfoldable pub check_download_url : Bytes → Result SourceError Unit
  unfolding contains bytes_eq
  check_download_url raw = check_url (web.parse_url raw)

  -- allowGitHubRedirects, after `via` requests.
  unfoldable pub allow_github_redirects : ℕ → Bytes → Result SourceError Unit
  unfolding check_download_url
  allow_github_redirects via url =
      reject (leb max_redirects via) too_many_redirects (check_download_url url)

  abbrev pub is_expected_type : Option Bytes → Bool
  is_expected_type none = true
  is_expected_type (some t) =
      bytes_eq t (codes "application/json") || bytes_eq t (codes "application/octet-stream")

  abbrev pub in_download : Result ReadLimitError Bytes → Result SourceError Bytes
  in_download (ok b) = ok b
  in_download (err e) = err (read_failed e)

  abbrev pub receive : ℕ → Option HttpResponse → Result SourceError Bytes
  receive limit none = err request_failed
  receive limit (some r) = reject (not (r.status == 200)) (http_status r.status) (
      reject (not (is_expected_type (web.media_type r.content_type))) bad_content_type
        (in_download (read_all_limited r.body (pos limit))))

  unfoldable pub download : Bytes → ℕ → Result SourceError Bytes
  unfolding check_download_url bytes_eq
  download url limit = do _ ← check_download_url url; receive limit (web.get url)

  abbrev pub list_decoded : Option (List ReleaseListing) → Result SourceError (List Candidate)
  list_decoded none = err undecodable
  list_decoded (some ls) =
      reject (length (candidates ls) == 0) no_candidates (ok (sort_stable (candidates ls)))

  unfoldable pub list_releases : Bytes → ℕ → Result SourceError (List Candidate)
  unfolding candidates sort_stable
  list_releases repository count = do
    body ← download (web.endpoint repository (count * 3)) max_release_list_bytes
    list_decoded (web.decode_listings body)

  abbrev pub kept_release :
      Bytes → Bytes → Result ManifestError Manifest → Option (Manifest × SignedRelease)
  kept_release manifest bundle (err e) = none
  kept_release manifest bundle (ok m) = some (m, record { manifest = manifest; bundle = bundle })

  abbrev pub try_bundle : Bytes → Result SourceError Bytes → Option (Manifest × SignedRelease)
  try_bundle manifest (err e) = none
  try_bundle manifest (ok bundle) = kept_release manifest bundle (verify sig manifest bundle)

  abbrev pub try_manifest : Candidate → Result SourceError Bytes → Option (Manifest × SignedRelease)
  try_manifest c (err e) = none
  try_manifest c (ok manifest) = try_bundle manifest (download c.bundle_url max_bundle_bytes)

  -- One round of the loop in fetch: a candidate that fails is skipped.
  unfoldable pub try_candidate : Candidate → Option (Manifest × SignedRelease)
  try_candidate c = try_manifest c (download c.manifest_url max_manifest_bytes)

  unfoldable pub fetch_loop :
      ℕ → List Candidate → List (Manifest × SignedRelease) → List (Manifest × SignedRelease)
  unfolding try_candidate
  fetch_loop count [] acc = acc
  fetch_loop count (c ∷ cs) acc = after count acc (try_candidate c) (fetch_loop count cs)

  abbrev pub fetched :
      List (Manifest × SignedRelease) → Result SourceError (List Manifest × List SignedRelease)
  fetched [] = err no_signed_releases
  fetched (m ∷ ms) = ok (map (λ x. x.0) (m ∷ ms), map (λ x. x.1) (m ∷ ms))

  -- The manifests, and the signed material that s.store is given.
  unfoldable pub fetch : Bytes → ℕ → Result SourceError (List Manifest × List SignedRelease)
  unfolding fetch_loop list_releases
  fetch repository count = do
    listed ← list_releases repository count
    fetched (fetch_loop count listed [])

  abbrev pub in_cache : Result ManifestError Manifest → Result SourceError Manifest
  in_cache (ok m) = ok m
  in_cache (err e) = err (unverified e)

  -- The loop of cached, after `taken` manifests.
  unfoldable pub cached_loop : ℕ → ℕ → List SignedRelease → Result SourceError (List Manifest)
  cached_loop count taken [] = ok []
  cached_loop count taken (r ∷ rs) =
      let rest = cached_loop count (suc taken) rs in
      do
        m ← in_cache (verify sig r.manifest r.bundle)
        ms ← if suc taken == count then ok [] else rest
        ok (m ∷ ms)

  -- What Load gives: an error, or the entries.
  unfoldable pub cached :
      ℕ → Option (Result SourceError (List SignedRelease)) → Result SourceError (List Manifest)
  unfolding cached_loop
  cached count none = err no_cache
  cached count (some (err e)) = err e
  cached count (some (ok [])) = err cache_empty
  cached count (some (ok (r ∷ rs))) = cached_loop count 0 (r ∷ rs)

  abbrev pub manifests_of :
      Result SourceError (List Manifest × List SignedRelease)
      → Result SourceError (List Manifest)
      → Result SourceError (List Manifest)
  manifests_of (ok (ms, stored)) fallback = ok ms
  manifests_of (err e) fallback = fallback

  abbrev pub derive :
      (Policy → Bytes)
      → (Bytes → Option Policy)
      → Result SourceError (List Manifest)
      → Option Policy
  derive encode decode (err e) = none
  derive encode decode (ok ms) = usable (policy_of encode decode ms)

  -- Policy: a policy from the fetched releases or, if that fails, from the cached ones.
  unfoldable pub source_policy :
      (Policy → Bytes)
      → (Bytes → Option Policy)
      → Bytes
      → ℕ
      → Option (Result SourceError (List SignedRelease))
      → Option Policy
  unfolding fetch cached policy_of
  source_policy encode decode repository count cache =
      derive encode decode (manifests_of (fetch repository count) (cached count cache))
