-- ===== src/Release/Derived.antt =====
-- What the policy that a source gives is made of (internal/release/source.go).
use mathlib.Core.Path.{subst}
use mathlib.Core.Option.{some-injective}
use dappnode_nexus_sdk.Prelude.{
  ℕ, suc, ◌+◌, ◌≤◌, ◌-◌, ◌<◌, ◌≡◌, ◌≢◌, refl, ap, false, Option, none, some, List, [], ◌∷◌, ◌++◌,
  map, ltb, ◌==◌, if◌then◌else◌, length, length-append, is_empty, All, All-append, Bool-cases, inl,
  inr, arith,
}
use dappnode_nexus_sdk.Prelude.Bytes.{Bytes}
use dappnode_nexus_sdk.Prelude.Result.{
  Result, ok, err, reject, reject_then, bind_then, ok-injective, Result-cases,
}
use dappnode_nexus_sdk.Attestation.Policy.{Policy, PolicyError, parse_policy}
use dappnode_nexus_sdk.Attestation.Policy
use dappnode_nexus_sdk.Attestation.Policy.Validated.{IsPolicy, policy_validate_iff}
use dappnode_nexus_sdk.Release.Signed.{
  Manifest, ManifestError, Sigstore, verify, derived_policy, policy_of,
}
use dappnode_nexus_sdk.Release.Authentic.{IsValid, IsAuthentic, verify-IsAuthentic}
use dappnode_nexus_sdk.Release.{
  usable, SignedRelease, SourceError, Candidate, Web, after, download, try_bundle, try_manifest,
  try_candidate, fetch_loop, fetched, fetch, in_cache, cached_loop, cached, manifests_of, derive,
  source_policy, list_releases, max_bundle_bytes,
}

-- encoding/json gives back, from the text of the policy of valid manifests, that policy.
unfoldable pub IsCodec : (Policy → Bytes) → (Bytes → Option Policy) → Type 0
IsCodec encode decode =
    (ms : List Manifest)
    → All IsValid ms
    → decode (encode (derived_policy ms)) ≡ some (derived_policy ms)

usable-some : (o : Result PolicyError Policy) (p : Policy) → usable (some o) ≡ some p → o ≡ ok p
usable-some (ok q) p h = ap ok (some-injective q p h)
usable-some (err e) p h = absurd (cc)

not_some : (p : Policy) → ◌≢◌ {A = Option Policy} none (some p)
not_some p h = cc

-- ParsePolicy of a text that decodes to `q`.
parse_policy-ok :
    (decode : Bytes → Option Policy) (b : Bytes) (q p : Policy)
    → decode b ≡ some q
    → parse_policy decode b ≡ ok p
    → Policy.validate q ≡ ok p
unfolding parse_policy
parse_policy-ok decode b q p e h =
    let checked = Policy.validate_decoded (decode b) in
    let sized : Result PolicyError Policy =
      reject (ltb Policy.max_policy_bytes (length b)) PolicyError.too_large checked in
    reject_then (is_empty b) PolicyError.empty_json sized h λ _ h.
      reject_then (ltb Policy.max_policy_bytes (length b)) PolicyError.too_large checked h
        λ _ h. (rw e at h)

module _ {B : Type 0} (web : Web) (sig : Sigstore B) where
  -- An entry of the loop in fetch: the manifest that the signed material verifies to.
  abbrev pub IsVerified : Manifest × SignedRelease → Type 0
  IsVerified (m, r) = verify sig r.manifest r.bundle ≡ ok m

  abbrev pub IsVerifiedOption : Option (Manifest × SignedRelease) → Type 0
  IsVerifiedOption none = Unit
  IsVerifiedOption (some e) = IsVerified e

  try_bundle-IsVerified :
      (manifest : Bytes) (b : Result SourceError Bytes)
      → IsVerifiedOption (try_bundle web sig manifest b)
  try_bundle-IsVerified manifest (err e) = tt
  try_bundle-IsVerified manifest (ok bundle) = elim (Result-cases (verify sig manifest bundle)) [
    | inl (m, e) ↦ rw e e
    | inr (why, e) ↦ rw e tt
  ]

  try_manifest-IsVerified :
      (c : Candidate) (b : Result SourceError Bytes) → IsVerifiedOption (try_manifest web sig c b)
  try_manifest-IsVerified c (err e) = tt
  try_manifest-IsVerified c (ok manifest) =
      try_bundle-IsVerified manifest (download web sig c.bundle_url max_bundle_bytes)

  -- What a loop over verified entries keeps to: the entries and the bound.
  abbrev Fits : ℕ → List (Manifest × SignedRelease) → Type 0
  Fits count es = All IsVerified es × (length es ≤ count)

  after-Fits :
      (count : ℕ) (acc : List (Manifest × SignedRelease)) (o : Option (Manifest × SignedRelease))
      (rest : List (Manifest × SignedRelease) → List (Manifest × SignedRelease))
      → All IsVerified acc
      → length acc < count
      → IsVerifiedOption o
      → ((es : List (Manifest × SignedRelease))
          → All IsVerified es
          → length es < count
          → Fits count (rest es))
      → Fits count (after count acc o rest)
  after-Fits count acc none rest a b v k = k acc a b
  after-Fits count acc (some e) rest a b v k =
      let longer : All IsVerified (acc ++ e ∷ []) = All-append IsVerified acc (e ∷ []) a (v, tt) in
      let size : length (acc ++ e ∷ []) ≡ length acc + 1 = length-append acc (e ∷ []) in
      elim (Bool-cases (length (acc ++ e ∷ []) == count)) [
        | inl full ↦ rw full (longer, ground (arith, size))
        | inr more ↦ rw more (k (acc ++ e ∷ []) longer (ground (arith, size)))
      ]

  fetch_loop-Fits :
      (count : ℕ) (cs : List Candidate) (acc : List (Manifest × SignedRelease))
      → All IsVerified acc
      → length acc < count
      → Fits count (fetch_loop web sig count cs acc)
  unfolding fetch_loop try_candidate
  fetch_loop-Fits count [] acc a b = (a, omega arith)
  fetch_loop-Fits count (c ∷ cs) acc a b =
      after-Fits count acc (try_candidate web sig c) (fetch_loop web sig count cs) a b
        (try_manifest-IsVerified c _) λ es v short. fetch_loop-Fits count cs es v short

  -- At most `count` manifests, each authentic.
  abbrev pub IsRecent : ℕ → List Manifest → Type 0
  IsRecent count ms = All (IsAuthentic sig) ms × (length ms ≤ count)

  Fits-IsRecent :
      (count : ℕ) (es : List (Manifest × SignedRelease))
      → Fits count es
      → IsRecent count (map (λ e. e.0) es)
  Fits-IsRecent count [] (a, b) = (tt, omega arith)
  Fits-IsRecent count ((m, r) ∷ es) ((v, a), b) =
      let (authentic, short) = Fits-IsRecent (length es) es (a, omega arith) in
      ((verify-IsAuthentic sig r.manifest r.bundle m v, authentic), omega arith)

  fetched-IsRecent :
      (count : ℕ) (es : List (Manifest × SignedRelease)) {ms : List Manifest}
      {rs : List SignedRelease}
      → Fits count es
      → fetched web sig es ≡ ok (ms, rs)
      → IsRecent count ms
  fetched-IsRecent count [] f h = cc
  fetched-IsRecent count (e ∷ es) f h =
      subst (IsRecent count) (ap (λ (x : List Manifest × List SignedRelease). x.0) (ok-injective h))
        (Fits-IsRecent count (e ∷ es) f)

  fetch-IsRecent :
      (repository : Bytes) (count : ℕ) (ms : List Manifest) (rs : List SignedRelease)
      → 1 ≤ count
      → fetch web sig repository count ≡ ok (ms, rs)
      → IsRecent count ms
  unfolding fetch
  fetch-IsRecent repository count ms rs positive h =
      bind_then (list_releases web sig repository count) _ h λ cs _ done.
        fetched-IsRecent count (fetch_loop web sig count cs [])
          (fetch_loop-Fits count cs [] tt (omega arith)) done

  in_cache-ok :
      (r : Result ManifestError Manifest) (m : Manifest) → in_cache web sig r ≡ ok m → r ≡ ok m
  in_cache-ok (ok x) m h = ap ok (ok-injective h)
  in_cache-ok (err e) m h = absurd (cc)

  IsRecent-nil : (count : ℕ) {ms : List Manifest} → [] ≡ ms → IsRecent count ms
  IsRecent-nil count h = subst (IsRecent count) h (tt, omega arith)

  IsRecent-cons :
      (k n : ℕ) (m : Manifest) (ms : List Manifest)
      → suc k ≤ n
      → IsAuthentic sig m
      → IsRecent k ms
      → IsRecent n (m ∷ ms)
  IsRecent-cons k n m ms b a (as', short) = ((a, as'), omega arith)

  more_to_come :
      (count taken : ℕ) → (suc taken == count) ≡ false → taken < count → suc taken < count
  more_to_come count taken h b = ground arith

  cached_loop-IsRecent :
      (count taken : ℕ) (rs : List SignedRelease) (ms : List Manifest)
      → taken < count
      → cached_loop web sig count taken rs ≡ ok ms
      → IsRecent (count - taken) ms
  unfolding cached_loop
  cached_loop-IsRecent count taken [] ms b h = IsRecent-nil (count - taken) (ok-injective h)
  cached_loop-IsRecent count taken (r ∷ rs) ms b h =
      let later = cached_loop-IsRecent count (suc taken) rs in
      bind_then (in_cache web sig (verify sig r.manifest r.bundle)) _ h λ m hm rest.
        bind_then (if suc taken == count then ok [] else cached_loop web sig count (suc taken) rs) _
          rest
          λ more hmore done.
            let a =
              verify-IsAuthentic sig r.manifest r.bundle m
                (in_cache-ok (verify sig r.manifest r.bundle) m hm) in
            let others : IsRecent (count - suc taken) more =
              elim (Bool-cases (suc taken == count)) [
                | inl full ↦ IsRecent-nil (count - suc taken) (ok-injective (rw full at hmore))
                | inr go ↦ later more (more_to_come count taken go b) (rw go at hmore)
              ] in
            subst (IsRecent (count - taken)) (ok-injective done)
              (IsRecent-cons (count - suc taken) (count - taken) m more (omega arith) a others)

  cached-IsRecent :
      (count : ℕ) (cache : Option (Result SourceError (List SignedRelease))) (ms : List Manifest)
      → 1 ≤ count
      → cached web sig count cache ≡ ok ms
      → IsRecent count ms
  unfolding cached
  cached-IsRecent count none ms p h = absurd (cc)
  cached-IsRecent count (some (err e)) ms p h = absurd (cc)
  cached-IsRecent count (some (ok [])) ms p h = absurd (cc)
  cached-IsRecent count (some (ok (r ∷ rs))) ms p h =
      let (authentic, short) = cached_loop-IsRecent count 0 (r ∷ rs) ms (omega arith) h in
      (authentic, omega arith)

  -- The policy is the one that ParsePolicy makes of manifests that are authentic, at most `count`.
  pub record IsDerived (count : ℕ) (p : Policy) : Type 0 where
    pub manifests : List Manifest
    pub recent : IsRecent count manifests
    pub policy : IsPolicy (derived_policy manifests) p

  All-IsValid : (ms : List Manifest) → All (IsAuthentic sig) ms → All IsValid ms
  All-IsValid [] a = tt
  All-IsValid (m ∷ ms) (a, as') = (a.valid, All-IsValid ms as')

  derive-IsDerived :
      (encode : Policy → Bytes) (decode : Bytes → Option Policy) (count : ℕ) (ms : List Manifest)
      (p : Policy)
      → IsCodec encode decode
      → IsRecent count ms
      → derive web sig encode decode (ok ms) ≡ some p
      → IsDerived count p
  unfolding policy_of IsCodec
  derive-IsDerived encode decode count [] p codec r h = absurd (cc)
  derive-IsDerived encode decode count (m ∷ ms) p codec r h =
      let q = derived_policy (m ∷ ms) in
      let read : decode (encode q) ≡ some q = codec (m ∷ ms) (All-IsValid (m ∷ ms) r.0) in
      record {
        manifests = m ∷ ms;
        recent = r;
        policy =
            (policy_validate_iff q p).0
              (parse_policy-ok decode (encode q) q p read (usable-some _ p h));
      }

  manifests-IsRecent :
      (count : ℕ) (f : Result SourceError (List Manifest × List SignedRelease))
      (fallback : Result SourceError (List Manifest)) (ms : List Manifest)
      → ((ms : List Manifest) (rs : List SignedRelease) → f ≡ ok (ms, rs) → IsRecent count ms)
      → ((ms : List Manifest) → fallback ≡ ok ms → IsRecent count ms)
      → manifests_of web sig f fallback ≡ ok ms
      → IsRecent count ms
  manifests-IsRecent count (ok (ns, rs)) fallback ms k l h =
      subst (IsRecent count) (ok-injective h) (k ns rs refl)
  manifests-IsRecent count (err e) fallback ms k l h = l ms h

  -- A policy that the source gives, from the network or from the cache, is the one that ParsePolicy
  -- makes of at most `count` manifests, each authentic: the pinned workflow has signed its bytes,
  -- and it is a valid production manifest. The source's count is at least one, and encoding/json
  -- reads back what it has written of such a policy.
  pub source_policy-IsDerived :
      (encode : Policy → Bytes) (decode : Bytes → Option Policy) (repository : Bytes) (count : ℕ)
      (cache : Option (Result SourceError (List SignedRelease))) (p : Policy)
      → IsCodec encode decode
      → 1 ≤ count
      → source_policy web sig encode decode repository count cache ≡ some p
      → IsDerived count p
  unfolding source_policy
  source_policy-IsDerived encode decode repository count cache p codec positive h =
      elim (Result-cases
        (manifests_of web sig (fetch web sig repository count) (cached web sig count cache))) [
          | inl (ms, e) ↦
              derive-IsDerived encode decode count ms p codec
                (manifests-IsRecent count (fetch web sig repository count)
                  (cached web sig count cache) ms
                  (λ ns rs f. fetch-IsRecent repository count ns rs positive f)
                  (λ ns c. cached-IsRecent count cache ns positive c) e)
                (rw e at h)
          | inr (why, e) ↦ absurd (not_some p (rw e at h))
        ]
