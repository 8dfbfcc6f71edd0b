-- ===== src/Attestation/Verifier/Fetch.antt =====
-- Verifier.fetch and Verifier.Verify of internal/attestation/verifier.go. The HTTP exchange is the
-- argument `send`, and what io.ReadFull gave of the random source is `random`.
use dappnode_nexus_sdk.Prelude.{
  ℕ, ◌≡◌, ◌*◌, refl, Bool, false, not, ◌||◌, Option, none, some, [], ◌∷◌, ◌++◌, ◌==◌, length,
  is_empty, arith, if◌then◌else◌,
}
use dappnode_nexus_sdk.Prelude.Bytes.{Bytes, codes, bytes_eq}
use dappnode_nexus_sdk.Prelude.Hex.{hex_encode, hex_decode}
use dappnode_nexus_sdk.Prelude.Result.{Result, ok, err, reject, bind_then, ◌>>=◌}
use dappnode_nexus_sdk.Prelude.Time.{Time, pos}
use dappnode_nexus_sdk.Http.{HttpRequest, HttpResponse}
use dappnode_nexus_sdk.Jsonutil.{ReadLimitError, read_all_limited}
use dappnode_nexus_sdk.Attestation.Policy.{Policy, all_zero, validate as validate_policy}
use dappnode_nexus_sdk.Attestation.Verifier.Types.{
  Deps, EndpointResponse, FetchedEvidence, Evidence, Verifier, VerifyError,
  max_attestation_response, sha384_bytes, hpke_key_bytes,
}
use dappnode_nexus_sdk.Attestation.Verifier.{validate}
use dappnode_nexus_sdk.Attestation.Verifier.Pinned.{Attests, validate-Attests}

-- The text of the request body: base64 needs no escape in JSON.
abbrev pub nonce_body : Deps → Bytes → Bytes
nonce_body d nonce = codes "{\"nonce\":\"" ++ (d.base64_raw_url nonce ++ codes "\"}")

abbrev pub attestation_request : Deps → Verifier → Bytes → HttpRequest
attestation_request d v nonce = record {
  method = codes "POST";
  url = v.endpoint;
  headers =
      (codes "Accept", codes "application/json")
      ∷ (codes "Content-Type", codes "application/json")
      ∷ (codes "User-Agent", codes "nexus-proxy/1")
      ∷ [];
  body = nonce_body d nonce;
}

-- decodeCanonicalBase64 and decodeCanonicalHex; `none` is their error.
abbrev keep_canonical : Bytes → Bytes → Bytes → Option Bytes
keep_canonical text encoded decoded = if not (bytes_eq text encoded) then none else some decoded

abbrev pub decode_canonical_base64 : Deps → Bytes → Option Bytes
decode_canonical_base64 d encoded = elim (d.base64_decode encoded) [
  | none ↦ none
  | some b ↦ keep_canonical (d.base64_encode b) encoded b
]

unfoldable pub decode_canonical_hex : Bytes → ℕ → Option Bytes
decode_canonical_hex encoded size =
    if not (length encoded == size * 2) then none else elim (hex_decode encoded) [
      | none ↦ none
      | some b ↦ keep_canonical (hex_encode b) encoded b
    ]

-- A decoded field, or the error of the field; `bad` is the further test on it.
abbrev pub field : Option Bytes → (Bytes → Bool) → VerifyError → Result VerifyError Bytes
field none bad e = err e
field (some b) bad e = reject (bad b) e (ok b)

-- The part of fetch behind the decoding of the response.
unfoldable pub check_payload : Deps → EndpointResponse → Result VerifyError FetchedEvidence
check_payload d p =
    reject
      (not (bytes_eq p.format (codes "aws-nitro-cose-sign1"))
        || not (bytes_eq p.encoding (codes "base64")))
      VerifyError.bad_format
      (reject (not (bytes_eq p.user_data_encoding (codes "sha384-hex")))
        VerifyError.bad_user_data_encoding
        (reject (not (bytes_eq p.hpke_public_key_encoding (codes "raw-x25519-hex")))
          VerifyError.bad_key_encoding
          (reject
            (is_empty p.manifest
              || not (d.json_valid p.manifest)
              || bytes_eq p.manifest (codes "null"))
            VerifyError.bad_manifest
            (do
              document ←
                  field (decode_canonical_base64 d p.document) is_empty VerifyError.bad_document
              user_data ←
                  field (decode_canonical_hex p.user_data sha384_bytes) (λ _. false)
                    VerifyError.bad_user_data
              key ←
                  field (decode_canonical_hex p.hpke_public_key hpke_key_bytes) all_zero
                    VerifyError.bad_public_key
              ok (record {
                document = document;
                manifest = p.manifest;
                user_data = user_data;
                public_key_copy = key;
              })))))

abbrev pub decode_payload : Deps → Option EndpointResponse → Result VerifyError FetchedEvidence
decode_payload d none = err VerifyError.decode_failed
decode_payload d (some p) = check_payload d p

abbrev pub read_payload : Deps → Result ReadLimitError Bytes → Result VerifyError FetchedEvidence
read_payload d (err e) = err (VerifyError.read_failed e)
read_payload d (ok b) = decode_payload d (d.decode_response b)

abbrev pub is_json : Option Bytes → Bool
is_json none = false
is_json (some t) = bytes_eq t (codes "application/json")

unfoldable pub check_response : Deps → HttpResponse → Result VerifyError FetchedEvidence
check_response d r = reject (not (r.status == 200)) (VerifyError.http_status r.status) (
    reject (not (is_json (d.media_type r.content_type))) VerifyError.not_json
      (read_payload d (read_all_limited r.body (pos max_attestation_response))))

unfoldable pub fetch :
    Deps
    → (HttpRequest → Option HttpResponse)
    → Verifier
    → Bytes
    → Result VerifyError FetchedEvidence
fetch d send v nonce = elim (send (attestation_request d v nonce)) [
  | none ↦ err VerifyError.request_failed
  | some r ↦ check_response d r
]

-- Verify: `random` is the nonce that was read, and `now` the clock when the response is validated.
abbrev pub verify_nonce :
    Deps
    → (HttpRequest → Option HttpResponse)
    → Verifier
    → Time
    → Option Bytes
    → Result VerifyError Evidence
verify_nonce d send v now none = err VerifyError.nonce_failed
verify_nonce d send v now (some nonce) = do f ← fetch d send v nonce; validate d v f nonce now

unfoldable pub verify :
    Deps
    → (HttpRequest → Option HttpResponse)
    → Verifier
    → Option Bytes
    → Time
    → Result VerifyError Evidence
verify d send v random now = verify_nonce d send v now random

-- What Verify proves: the response to a request that carried this nonce gave the evidence.
pub record Verified (d : Deps) (send : HttpRequest → Option HttpResponse) (v : Verifier)
    (random : Option Bytes) (ev : Evidence) : Type 0 where
  pub nonce : Bytes
  pub fetched : FetchedEvidence
  pub drawn : random ≡ some nonce
  pub answered : fetch d send v nonce ≡ ok fetched
  pub attests : Attests d v.policy fetched nonce ev

pub verify-Verified :
    (d : Deps) (send : HttpRequest → Option HttpResponse) (v : Verifier) (random : Option Bytes)
    (now : Time) (ev : Evidence) (source : Policy)
    → validate_policy source ≡ ok v.policy
    → verify d send v random now ≡ ok ev
    → Verified d send v random ev
unfolding verify
verify-Verified d send v none now ev source valid h = absurd (ground arith)
verify-Verified d send v (some nonce) now ev source valid h =
    bind_then (fetch d send v nonce) _ h λ f hf done. record {
      nonce = nonce;
      fetched = f;
      drawn = refl;
      answered = hf;
      attests = validate-Attests d v f nonce now ev done source valid;
    }
