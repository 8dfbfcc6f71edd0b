-- ===== src/Proxy/Chat.antt =====
-- The chat endpoint of internal/proxy/handler.go: ServeHTTP from the test of the method on, and
-- forwardNormal. mime, encoding/json and the random source are the parameter `Local`; what the
-- confidential client returns is the argument `exchange`. Response headers are not modelled.
pub mod Recorded
use dappnode_nexus_sdk.Prelude.{
  ℕ, ◌+◌, ◌*◌, ◌/◌, ◌-◌, ◌^◌, Bool, true, false, not, ◌&&◌, ◌||◌, Option, none, some, List, [], ◌∷◌,
  ltb, leb, ◌==◌, if◌then◌else◌, length,
}
use dappnode_nexus_sdk.Prelude.Bytes.{Bytes, codes, bytes_eq}
use dappnode_nexus_sdk.Prelude.Result.{Result, ok, err}
use dappnode_nexus_sdk.Prelude.Space.{trim_space}
use dappnode_nexus_sdk.Prelude.Time.{Time, pos, millisecond}
use dappnode_nexus_sdk.Jsonutil.{Reader, ReadLimitError, read_all_limited, is_json_object}
use dappnode_nexus_sdk.Ledger.{Ledger, Request, outcome_failed, outcome_encrypted, record_request}
use dappnode_nexus_sdk.Proxy.Stream.{Read, Ending, returned, Streamed, forward_event_stream}

abbrev pub envelope_schema_version : ℕ
envelope_schema_version = 1

abbrev pub max_request_bytes : ℕ
max_request_bytes = 10 * 2 ^ 20

abbrev pub max_normal_response : ℕ
max_normal_response = 64 * 2 ^ 20

pub record Envelope : Type 0 where
  pub schema_version : ℕ
  pub request_id : Bytes
  pub issued_at : Time
  pub request : Bytes

-- An incoming request for the chat path.
pub record ChatRequest : Type 0 where
  pub method : Bytes
  pub content_type : Bytes
  pub body : Reader
  pub authorization : Bytes
  pub accept : Bytes
  pub user_agent : Bytes

-- The decrypted response: for an event stream, the reads of its body and whether the local client
-- has gone away by the end.
pub record GatewayResponse : Type 0 where
  pub status : ℕ
  pub content_type : Bytes
  pub body : Reader
  pub reads : List Read
  pub gone : Bool

-- What the local client gets: an error in OpenAI's form, or a status with a body.
pub data Reply : Type 0 where
  refused : ℕ → Bytes → Bytes → Reply
  normal : ℕ → Bytes → Reply
  stream : ℕ → Bytes → Ending → Reply

pub record Local : Type 0 where
  pub media_type : Bytes → Option Bytes
  pub lower : Bytes → Bytes
  pub json_valid : Bytes → Bool
  pub new_id : Option Bytes
  pub marshal : Envelope → Option Bytes

-- The readings of h.now().
pub record Clock : Type 0 where
  pub issued : Time
  pub started : Time
  pub finished : Time

abbrev pub invalid_request : ℕ → Bytes → Reply
invalid_request status message = refused status message (codes "invalid_request_error")

abbrev pub api_error : ℕ → Bytes → Reply
api_error status message = refused status message (codes "api_error")

abbrev pub invalid_response : Reply
invalid_response = api_error 502 (codes "confidential Gateway returned an invalid response")

-- The statuses behind "Gateway returned a status that forbids a body".
unfoldable pub forbids_body : ℕ → Bool
forbids_body s = ltb s 200 || ltb 599 s || leb 300 s && leb s 399 || s == 204 || s == 205

-- The record as it is when the deferred RecordRequest is set up.
abbrev pub first_record : Bytes → Time → Bytes → Request
first_record id started body = record {
  id = id;
  started_at = started;
  duration_ms = 0;
  attestation_id = [];
  outcome = outcome_failed;
  failure = [];
  status_code = 0;
  request_bytes = length body;
  response_bytes = 0;
  streaming = false;
}

abbrev pub failed_with : Request → Bytes → Request
failed_with r failure = record r { failure = failure }

module _ (env : Local) where
  abbrev pub is_json : Option Bytes → Bool
  is_json none = false
  is_json (some t) = bytes_eq t (codes "application/json")

  -- The body that will be sent, or the refusal.
  abbrev pub checked_object : Bytes → Result Reply Bytes
  checked_object b =
      if not (is_json_object env.json_valid b)
      then err (invalid_request 400 (codes "request body must be one JSON object"))
      else ok b

  abbrev pub checked_body : Result ReadLimitError Bytes → Result Reply Bytes
  checked_body (err e) = err (invalid_request 413 (codes "request body exceeds the 10 MiB limit"))
  checked_body (ok b) = checked_object (trim_space b)

  unfoldable pub check_request : ChatRequest → Result Reply Bytes
  unfolding bytes_eq read_all_limited trim_space is_json_object
  check_request q =
      if not (bytes_eq q.method (codes "POST"))
      then err (invalid_request 405 (codes "method must be POST"))
      else if not (is_json (env.media_type q.content_type))
      then err (invalid_request 415 (codes "Content-Type must be application/json"))
      else checked_body (read_all_limited q.body (pos max_request_bytes))

  abbrev pub forward_object : ℕ → Request → Bytes → Reply × Request
  forward_object status r body =
      if not (is_json_object env.json_valid body)
      then (
        invalid_response,
        failed_with r (codes "authenticated response was not one complete JSON object"),
      )
      else (
        normal status body,
        record r { outcome = outcome_encrypted; response_bytes = length body },
      )

  abbrev pub forward_read : ℕ → Request → Result ReadLimitError Bytes → Reply × Request
  forward_read status r (err e) =
      (invalid_response, failed_with r (codes "authenticated response could not be read"))
  forward_read status r (ok body) = forward_object status r (trim_space body)

  unfoldable pub forward_normal : GatewayResponse → Request → Reply × Request
  unfolding trim_space is_json_object read_all_limited
  forward_normal g r = forward_read g.status r (read_all_limited g.body (pos max_normal_response))

  abbrev pub streamed : ℕ → Streamed → Reply × Request
  streamed status s = (stream status s.delivered s.ending, s.request)

  -- isEventStream
  abbrev pub is_event_stream : Option Bytes → Bool
  is_event_stream none = false
  is_event_stream (some t) = bytes_eq (env.lower t) (codes "text/event-stream")

  unfoldable pub forward : GatewayResponse → Request → Reply × Request
  unfolding forward_normal forward_event_stream bytes_eq
  forward g r =
      if is_event_stream (env.media_type g.content_type)
      then streamed g.status (forward_event_stream g.gone (record r { streaming = true }) g.reads)
      else forward_normal g r

  -- What follows sender.Do.
  unfoldable pub after_exchange : Request → Option GatewayResponse × Bytes → Reply × Request
  unfolding forward forbids_body
  after_exchange r (none, id) = (
    api_error 502 (codes "confidential Gateway verification or exchange failed"),
    failed_with (record r { attestation_id = id })
        (codes "Gateway attestation or encrypted exchange failed"),
  )
  after_exchange r (some g, id) =
      let r' : Request = record r { attestation_id = id; status_code = g.status } in
      if forbids_body g.status
      then (
        invalid_response,
        failed_with r' (codes "Gateway returned a status that forbids a body"),
      )
      else forward g r'

  -- The deferred call, on a return and on a panic.
  abbrev pub recorded : Clock → Option Ledger → Reply × Request → Reply × Option Ledger
  recorded k l (reply, r) =
      (reply, record_request (record r { duration_ms = (k.finished - k.started) / millisecond }) l)

  abbrev pub exchange_with :
      Clock
      → (Bytes → Bytes → Bytes → Bytes → Option GatewayResponse × Bytes)
      → Option Ledger
      → ChatRequest
      → Bytes
      → Bytes
      → Option Bytes
      → Reply × Option Ledger
  exchange_with k exchange l q body id none =
      (api_error 500 (codes "local proxy failed to prepare request"), l)
  exchange_with k exchange l q body id (some envelope) = recorded k l (
      after_exchange (first_record id k.started body)
        (exchange q.authorization q.accept q.user_agent envelope))

  abbrev pub with_id :
      Clock
      → (Bytes → Bytes → Bytes → Bytes → Option GatewayResponse × Bytes)
      → Option Ledger
      → ChatRequest
      → Bytes
      → Option Bytes
      → Reply × Option Ledger
  with_id k exchange l q body none =
      (api_error 500 (codes "local proxy failed to prepare request"), l)
  with_id k exchange l q body (some id) = exchange_with k exchange l q body id (
      env.marshal (record {
        schema_version = envelope_schema_version;
        request_id = id;
        issued_at = k.issued;
        request = body;
      }))

  abbrev pub with_body :
      Clock
      → (Bytes → Bytes → Bytes → Bytes → Option GatewayResponse × Bytes)
      → Option Ledger
      → ChatRequest
      → Result Reply Bytes
      → Reply × Option Ledger
  with_body k exchange l q (err reply) = (reply, l)
  with_body k exchange l q (ok body) = with_id k exchange l q body env.new_id

  unfoldable pub serve_chat :
      Clock
      → (Bytes → Bytes → Bytes → Bytes → Option GatewayResponse × Bytes)
      → Option Ledger
      → ChatRequest
      → Reply × Option Ledger
  unfolding check_request after_exchange record_request
  serve_chat k exchange l q = with_body k exchange l q (check_request q)
