-- ===== src/Proxy/Routes.antt =====
-- internal/proxy/handler.go and verification.go: the routes other than the chat path. The catalog
-- fetch is an argument. The list of headers leaves out Cache-Control, which every answer has.
pub mod Closed
use dappnode_nexus_sdk.Prelude.{
  ℕ, Bool, true, false, not, ◌&&◌, ◌||◌, Option, none, some, List, [], ◌∷◌, ◌++◌, if◌then◌else◌,
}
use dappnode_nexus_sdk.Prelude.Bytes.{Bytes, codes, bytes_eq}
use dappnode_nexus_sdk.Prelude.Result.{Result, ok, err}
use dappnode_nexus_sdk.Prelude.Time.{Time}
use dappnode_nexus_sdk.Ledger.{Ledger, Snapshot, snapshot, document}

abbrev pub chat_path : Bytes
chat_path = codes "/v1/chat/completions"

abbrev pub health_path : Bytes
health_path = codes "/healthz"

abbrev pub models_path : Bytes
models_path = codes "/v1/models"

abbrev pub ui_path : Bytes
ui_path = codes "/verification"

abbrev pub api_path : Bytes
api_path = codes "/v1/verification"

abbrev pub document_path : Bytes
document_path = codes "/v1/verification/document"

-- A request as the routes read it: the query's "id" and "part".
pub record Incoming : Type 0 where
  pub method : Bytes
  pub path : Bytes
  pub id : Bytes
  pub part : Bytes

-- `catalog` says whether WithModelCatalog gave one.
pub record Handler : Type 0 where
  pub ledger : Option Ledger
  pub gateway_origin : Bytes
  pub verification_ui : Bool
  pub catalog : Bool

-- The body of an answer; `page` is the embedded page and `not_found` that of http.NotFound.
pub data Content : Type 0 where
  text : Bytes → Content
  openai_error : Bytes → Bytes → Content
  page not_found : Content
  view : Bytes → Snapshot → Content

pub record Answer : Type 0 where
  pub status : ℕ
  pub headers : List (Bytes × Bytes)
  pub content : Content

pub data Routed : Type 0 where
  to_chat : Routed
  answered : Answer → Routed

-- NewHandler, WithLedger, WithVerification and WithModelCatalog.
abbrev pub new_handler : Handler
new_handler = record {
  ledger = none;
  gateway_origin = [];
  verification_ui = false;
  catalog = false;
}

abbrev pub with_ledger : Option Ledger → Handler → Handler
with_ledger l h = record h { ledger = l }

abbrev pub with_verification : Option Ledger → Bytes → Handler → Handler
with_verification l origin h = record (with_ledger l h) {
  gateway_origin = origin;
  verification_ui = true;
}

abbrev pub with_model_catalog : Handler → Handler
with_model_catalog h = record h { catalog = true }

abbrev pub content_type : Bytes → Bytes × Bytes
content_type t = (codes "Content-Type", t)

abbrev pub json_type : Bytes × Bytes
json_type = content_type (codes "application/json")

abbrev pub no_sniff : Bytes × Bytes
no_sniff = (codes "X-Content-Type-Options", codes "nosniff")

abbrev pub http_not_found : Answer
http_not_found = record { status = 404; headers = []; content = not_found }

-- writeOpenAIError after the headers `hs`.
abbrev pub write_openai_error : List (Bytes × Bytes) → ℕ → Bytes → Bytes → Answer
write_openai_error hs status message kind = record {
  status = status;
  headers = hs ++ json_type ∷ [];
  content = openai_error message kind;
}

abbrev pub method_not_allowed : Answer
method_not_allowed =
    write_openai_error ((codes "Allow", codes "GET") ∷ []) 405 (codes "method must be GET")
      (codes "invalid_request_error")

abbrev pub is_get : Incoming → Bool
is_get r = bytes_eq r.method (codes "GET")

unfoldable pub serve_health : Incoming → Answer
serve_health r = if not (is_get r) then method_not_allowed else record {
  status = 200;
  headers = json_type ∷ [];
  content = text (codes "{\"status\":\"ok\"}\n");
}

abbrev pub catalog_answer : {E : Type 0} → ℕ × Result E Bytes → Answer
catalog_answer (status, err e) =
    write_openai_error [] 502 (codes "could not read the model catalog from the Gateway")
      (codes "api_error")
catalog_answer (status, ok body) = record {
  status = status;
  headers = json_type ∷ [];
  content = text body;
}

unfoldable pub serve_models : {E : Type 0} → Handler → ℕ × Result E Bytes → Incoming → Answer
serve_models h fetched r =
    if not h.catalog
    then http_not_found
    else if not (is_get r)
    then method_not_allowed
    else catalog_answer fetched

-- allowVerification, with the ledger that is then not nil.
abbrev pub allow_verification : Bool → Option Ledger → Incoming → (Ledger → Answer) → Answer
allow_verification ui none r serve = http_not_found
allow_verification ui (some l) r serve =
    if not ui then http_not_found else if not (is_get r) then method_not_allowed else serve l

unfoldable pub serve_verification_ui : Handler → Incoming → Answer
serve_verification_ui h r = allow_verification h.verification_ui h.ledger r (λ _. record {
  status = 200;
  headers =
      content_type (codes "text/html; charset=utf-8")
      ∷ (
        codes "Content-Security-Policy",
        codes
            "default-src 'none'; style-src 'unsafe-inline'; script-src 'unsafe-inline'; connect-src 'self'",
      )
      ∷ no_sniff
      ∷ (codes "Referrer-Policy", codes "no-referrer")
      ∷ [];
  content = page;
})

unfoldable pub serve_verification_api : Handler → Time → Incoming → Answer
serve_verification_api h now r = allow_verification h.verification_ui h.ledger r (λ l. record {
  status = 200;
  headers = json_type ∷ no_sniff ∷ [];
  content = view h.gateway_origin (snapshot now l);
})

abbrev pub attachment : Bytes → Bytes → Bytes → Bytes × Bytes
attachment name id extension = (
  codes "Content-Disposition",
  codes "attachment; filename=\"" ++ name ++ id ++ extension ++ codes "\"",
)

abbrev pub evidence_answer : Incoming → Option (Bytes × Bytes) → Answer
evidence_answer r none =
    write_openai_error [] 404 (codes "no retained evidence for that attestation")
      (codes "invalid_request_error")
evidence_answer r (some (d, m)) =
    if bytes_eq r.part (codes "manifest")
    then record {
      status = 200;
      headers =
          no_sniff ∷ json_type ∷ attachment (codes "nexus-manifest-") r.id (codes ".json") ∷ [];
      content = text m;
    }
    else record {
      status = 200;
      headers =
          no_sniff
          ∷ content_type (codes "application/octet-stream")
          ∷ attachment (codes "nexus-attestation-") r.id (codes ".cose")
          ∷ [];
      content = text d;
    }

unfoldable pub serve_verification_document : Handler → Incoming → Answer
serve_verification_document h r =
    allow_verification h.verification_ui h.ledger r (λ l. evidence_answer r (document r.id l))

-- ServeHTTP, up to the chat path.
unfoldable pub dispatch : {E : Type 0} → Handler → Time → ℕ × Result E Bytes → Incoming → Routed
dispatch h now fetched r =
    if bytes_eq r.path health_path
    then answered (serve_health r)
    else if bytes_eq r.path ui_path
    then answered (serve_verification_ui h r)
    else if bytes_eq r.path api_path
    then answered (serve_verification_api h now r)
    else if bytes_eq r.path document_path
    then answered (serve_verification_document h r)
    else if bytes_eq r.path models_path
    then answered (serve_models h fetched r)
    else if not (bytes_eq r.path chat_path)
    then answered http_not_found
    else to_chat
