-- ===== src/Url.antt =====
-- net/url, as far as the repository uses it: what ParseRequestURI gives, and the two rules on it
-- that the constructors share. Parsing and String are parameters of the definitions that use them.
use dappnode_nexus_sdk.Prelude.{
  Bool, true, false, not, ◌&&◌, ◌||◌, Option, none, some, [], ◌∷◌, is_empty, ◌≡◌, refl, arith,
}
use mathlib.Core.Path.{subst}
use dappnode_nexus_sdk.Prelude.Bytes.{Bytes, codes, bytes_eq}
use dappnode_nexus_sdk.Prelude.Result.{Result, ok, err, reject, reject_then, ok-injective}

-- `has_user` is User != nil.
pub record Url : Type 0 where
  pub scheme : Bytes
  pub opaque : Bytes
  pub has_user : Bool
  pub host : Bytes
  pub path : Bytes
  pub raw_path : Bytes
  pub force_query : Bool
  pub raw_query : Bytes
  pub fragment : Bytes

abbrev pub https : Bytes
https = codes "https"

abbrev pub filled : Bytes → Bool
filled b = not (is_empty b)

-- parsed.Scheme != "https" || parsed.Host == "" || parsed.Opaque != ""
abbrev pub not_https : Url → Bool
not_https u = not (bytes_eq u.scheme https) || (is_empty u.host || filled u.opaque)

-- Credentials, a query or a fragment.
abbrev pub has_extras : Url → Bool
has_extras u =
    u.has_user
    || (filled u.raw_query || (u.force_query || (filled u.fragment || filled u.raw_path)))

-- validateEndpoint of confidential and catalog, and validateEndpointURL of attestation.
pub data EndpointError : Type 0 where
  invalid not_exact : EndpointError

abbrev endpoint_of : Bytes → Option Url → Result EndpointError Url
endpoint_of path none = err invalid
endpoint_of path (some u) =
    reject
      (not_https u
        || (not (bytes_eq u.path path)
            || (filled u.raw_path
                || (u.has_user || (filled u.raw_query || (u.force_query || filled u.fragment))))))
      not_exact (ok u)

unfoldable pub validate_endpoint : (Bytes → Option Url) → Bytes → Bytes → Result EndpointError Url
validate_endpoint parse path raw = endpoint_of path (parse raw)

-- The origin rules of normalizeGatewayURL and validateGatewayOrigin, which differ in the wording
-- of their errors; `to_string` is URL.String.
pub data OriginError : Type 0 where
  required malformed not_absolute extras has_path : OriginError

abbrev pub origin_url : Url → Url
origin_url u = record {
  scheme = u.scheme;
  opaque = [];
  has_user = false;
  host = u.host;
  path = [];
  raw_path = [];
  force_query = false;
  raw_query = [];
  fragment = [];
}

abbrev bad_path : Url → Bool
bad_path u = filled u.path && not (bytes_eq u.path (codes "/"))

abbrev origin_of : (Url → Bytes) → Option Url → Result OriginError Bytes
origin_of to_string none = err malformed
origin_of to_string (some u) =
    reject (not_https u) not_absolute
      (reject (has_extras u) extras (reject (bad_path u) has_path (ok (to_string (origin_url u)))))

unfoldable pub normalize_origin :
    (Bytes → Option Url) → (Url → Bytes) → Bytes → Result OriginError Bytes
normalize_origin parse to_string raw =
    reject (is_empty raw) required (origin_of to_string (parse raw))

-- What net/url promises of a URL of a scheme and a host: its text reads back, and an empty text is
-- no URL.
pub record UrlLaws (parse : Bytes → Option Url) (to_string : Url → Bytes) : Type 0 where
  pub reads_back :
      (raw : Bytes) (u : Url)
      → parse raw ≡ some u
      → not_https u ≡ false
      → parse (to_string (origin_url u)) ≡ some (origin_url u)
  pub no_empty : parse [] ≡ none

module _ (parse : Bytes → Option Url) (to_string : Url → Bytes)
    (laws : UrlLaws parse to_string) where
  is_empty-nil : (b : Bytes) → is_empty b ≡ true → b ≡ []
  is_empty-nil [] h = refl
  is_empty-nil (x ∷ xs) h = absurd (cc)

  text_not_empty : (b : Bytes) (u : Url) → parse b ≡ some u → is_empty b ≡ false
  text_not_empty [] u h = absurd (let n = laws.no_empty in cc)
  text_not_empty (x ∷ xs) u h = refl

  or_drop : (a b c : Bool) → (a || (b || c)) ≡ false → (a || (b || false)) ≡ false
  or_drop a b c h = ground arith

  not_https_origin : (u : Url) → not_https u ≡ false → not_https (origin_url u) ≡ false
  not_https_origin u h = or_drop _ _ _ h

  origin_of-fixed :
      (raw o : Bytes) (p : Option Url)
      → parse raw ≡ p
      → origin_of to_string p ≡ ok o
      → normalize_origin parse to_string o ≡ ok o
  unfolding normalize_origin
  origin_of-fixed raw o none e h = absurd (cc)
  origin_of-fixed raw o (some u) e h = reject_then (not_https u) not_absolute _ h λ secure h1.
      reject_then (has_extras u) extras _ h1 λ plain h2.
        reject_then (bad_path u) has_path _ h2 λ short h3.
          let text = to_string (origin_url u) in
          let back = laws.reads_back raw u e secure in
          let same : normalize_origin parse to_string text ≡ ok text =
            rw (text_not_empty text (origin_url u) back, back, not_https_origin u secure) refl in
          subst (λ x. normalize_origin parse to_string x ≡ ok x) (ok-injective h3) same

  -- A normalized Gateway origin is normalized to itself.
  pub normalize_origin_idempotent :
      (raw o : Bytes)
      → normalize_origin parse to_string raw ≡ ok o
      → normalize_origin parse to_string o ≡ ok o
  unfolding normalize_origin
  normalize_origin_idempotent raw o h =
      reject_then (is_empty raw) required _ h
        λ given rest. origin_of-fixed raw o (parse raw) refl rest
