-- ===== src/Catalog.antt =====
-- internal/catalog/catalog.go: the Gateway's public model catalog. The network is an argument, and
-- json.Valid a parameter.
use dappnode_nexus_sdk.Prelude.{
  arith, ℕ, ◌*◌, ◌^◌, Bool, not, Option, none, some, ◌≤◌, true, false, ◌≡◌, refl, sym, ap, ◌∙◌, [],
  ◌∷◌, if◌then◌else◌, length, Bool-cases, inl, inr,
}
use dappnode_nexus_sdk.Prelude.Bytes.{Bytes, codes}
use dappnode_nexus_sdk.Prelude.Result.{Result, ok, err, reject, ok-injective}
use dappnode_nexus_sdk.Prelude.Space.{trim_space}
use dappnode_nexus_sdk.Prelude.Time.{pos}
use dappnode_nexus_sdk.Jsonutil.{
  ReadLimitError, read_all_limited, read_all_limited_iff, is_json_object,
}
use dappnode_nexus_sdk.Http.{HttpRequest, HttpResponse}
use dappnode_nexus_sdk.Url.{Url, EndpointError, validate_endpoint}

abbrev pub models_endpoint : Bytes
models_endpoint = codes "/v1/models"

abbrev pub max_catalog_bytes : ℕ
max_catalog_bytes = 4 * 2 ^ 20

pub data ClientError : Type 0 where
  bad_endpoint : EndpointError → ClientError
  no_wire follows_redirects : ClientError

abbrev checked_endpoint :
    Result EndpointError Url → Result ClientError Unit → Result ClientError Unit
checked_endpoint (err e) rest = err (bad_endpoint e)
checked_endpoint (ok u) rest = rest

abbrev checked_wire : Option Bool → Result ClientError Unit
checked_wire none = err no_wire
checked_wire (some rejects) = reject (not rejects) follows_redirects (ok tt)

-- NewClient: `wire` says of a client that is not nil whether CheckRedirect is set.
unfoldable pub new_client : (Bytes → Option Url) → Bytes → Option Bool → Result ClientError Unit
new_client parse endpoint wire =
    checked_endpoint (validate_endpoint parse models_endpoint endpoint) (checked_wire wire)

pub data FetchError : Type 0 where
  request_failed : FetchError
  read_failed : ReadLimitError → FetchError
  not_an_object : FetchError

-- The GET, which carries no credential.
abbrev pub catalog_request : Bytes → HttpRequest
catalog_request endpoint = record {
  method = codes "GET";
  url = endpoint;
  headers = (codes "Accept", codes "application/json") ∷ [];
  body = [];
}

abbrev object_or : (Bytes → Bool) → ℕ → Bytes → ℕ × Result FetchError Bytes
object_or valid status body =
    if not (is_json_object valid body) then (status, err not_an_object) else (status, ok body)

abbrev fetched : (Bytes → Bool) → ℕ → Result ReadLimitError Bytes → ℕ × Result FetchError Bytes
unfolding trim_space
fetched valid status (err e) = (status, err (read_failed e))
fetched valid status (ok body) = object_or valid status (trim_space body)

abbrev responded : (Bytes → Bool) → Option HttpResponse → ℕ × Result FetchError Bytes
responded valid none = (0, err request_failed)
responded valid (some r) = fetched valid r.status (read_all_limited r.body (pos max_catalog_bytes))

-- Fetch: the status, and the body or an error.
unfoldable pub fetch :
    (Bytes → Bool) → (HttpRequest → Option HttpResponse) → Bytes → ℕ × Result FetchError Bytes
unfolding fetched
fetch valid wire endpoint = responded valid (wire (catalog_request endpoint))

-- A body that was read to its end within the limit, without the spaces around it, and is an object.
pub record IsCatalog (valid : Bytes → Bool) (response : Option HttpResponse) (body : Bytes)
    : Type 0 where
  answer : HttpResponse
  responded_with : response ≡ some answer
  complete : answer.body.failure ≡ false
  bounded : length answer.body.bytes ≤ max_catalog_bytes
  trimmed : body ≡ trim_space answer.body.bytes
  object : is_json_object valid body ≡ true

object_or-ok :
    (valid : Bytes → Bool) (status : ℕ) (b body : Bytes)
    → (object_or valid status b).1 ≡ ok body
    → (body ≡ b) × (is_json_object valid b ≡ true)
object_or-ok valid status b body h = elim (Bool-cases (is_json_object valid b)) [
  | inl t ↦ let e : (object_or valid status b).1 ≡ ok b = rw t refl in (ok-injective (sym h ∙ e), t)
  | inr t ↦
      let e : (object_or valid status b).1 ≡ err not_an_object = rw t refl in
      absurd (let d = sym h ∙ e in cc)
]

fetched-IsCatalog :
    (valid : Bytes → Bool) (r : HttpResponse) (o : Result ReadLimitError Bytes) (body : Bytes)
    → read_all_limited r.body (pos max_catalog_bytes) ≡ o
    → (fetched valid r.status o).1 ≡ ok body
    → IsCatalog valid (some r) body
unfolding fetched
fetched-IsCatalog valid r (err e) body o h = absurd (cc)
fetched-IsCatalog valid r (ok b) body o h =
    let (bytes, bounded, complete) =
      (read_all_limited_iff r.body max_catalog_bytes b (omega arith)).0 o in
    let (same, object) = object_or-ok valid r.status (trim_space b) body h in
    record {
      answer = r;
      responded_with = refl;
      complete = complete;
      bounded = rw bytes bounded;
      trimmed = same ∙ ap trim_space (sym bytes);
      object = rw same object;
    }

responded-IsCatalog :
    (valid : Bytes → Bool) (r : Option HttpResponse) (body : Bytes)
    → (responded valid r).1 ≡ ok body
    → IsCatalog valid r body
responded-IsCatalog valid none body h = absurd (cc)
responded-IsCatalog valid (some r) body h =
    fetched-IsCatalog valid r (read_all_limited r.body (pos max_catalog_bytes)) body refl h

-- A catalog that Fetch passes on is the whole of the Gateway's answer, at most 4 MiB, less the
-- white space around it, and one JSON object.
pub fetch-IsCatalog :
    (valid : Bytes → Bool) (wire : HttpRequest → Option HttpResponse) (endpoint body : Bytes)
    → (fetch valid wire endpoint).1 ≡ ok body
    → IsCatalog valid (wire (catalog_request endpoint)) body
unfolding fetch
fetch-IsCatalog valid wire endpoint body h =
    responded-IsCatalog valid (wire (catalog_request endpoint)) body h
