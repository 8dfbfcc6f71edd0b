-- ===== src/Proxy/Chat/Recorded.antt =====
-- What the local client gets for a chat request, and what the ledger records of it
-- (internal/proxy/handler.go).
use dappnode_nexus_sdk.Prelude.{
  ℕ, ◌-◌, ◌/◌, ◌++◌, ◌≡◌, ◌≤◌, arith, ◌∙◌, refl, Bool, true, false, not, ◌&&◌, Option, none, some,
  List, [], ◌∷◌, if◌then◌else◌, length, is_empty, Bool-cases, Option-cases, ◌⊎◌, inl, inr,
}
use dappnode_nexus_sdk.Prelude.Bytes.{Bytes, codes, bytes_eq, passed_bytes_eq}
use dappnode_nexus_sdk.Prelude.Result.{Result, ok, err}
use dappnode_nexus_sdk.Prelude.Space.{trim_space}
use dappnode_nexus_sdk.Prelude.Time.{pos, millisecond}
use dappnode_nexus_sdk.Jsonutil.{
  ReadLimitError, read_all_limited, read_all_limited_iff, is_json_object,
}
use dappnode_nexus_sdk.Ledger.{Ledger, Request, outcome_failed, outcome_encrypted, record_request}
use dappnode_nexus_sdk.Proxy.Sse.{Tracker, new_tracker, write, finish}
use dappnode_nexus_sdk.Proxy.Stream.{
  Read, ReadError, Ending, returned, Streamed, end_stream, count_bytes, forward_loop,
  forward_event_stream,
}
use dappnode_nexus_sdk.Proxy.Chat.{
  ChatRequest, GatewayResponse, Reply, refused, normal, stream, Local, Clock, max_normal_response,
  forbids_body, first_record, is_event_stream, is_json, max_request_bytes, checked_object,
  checked_body, check_request, forward_object, forward_read, forward_normal, forward,
  after_exchange, recorded, exchange_with, with_id, with_body, serve_chat,
}

-- A stream that was counted as a success had returned; any other keeps the outcome it began with.
abbrev pub StreamOutcome : Bytes → Streamed → Type 0
StreamOutcome before s =
    ((s.request.outcome ≡ outcome_encrypted) × (s.ending ≡ returned)) ⊎ (s.request.outcome ≡ before)

counted-outcome :
    (b : Bool) (r : Request) (x : Bytes) → (if b then r else count_bytes r x).outcome ≡ r.outcome
counted-outcome true r x = refl
counted-outcome false r x = refl

module _ (gone : Bool) (before : Bytes) where
  end_stream-Outcome :
      (t : Tracker) (r : Request) (out : Bytes) (e : ReadError)
      → r.outcome ≡ before
      → StreamOutcome before (end_stream gone t r out e)
  unfolding end_stream
  end_stream-Outcome t r out e h = elim (Bool-cases (finish t).done) [
    | inl d ↦ rw d (inl (refl, refl))
    | inr d ↦ rw d (inr h)
  ]

  forward_loop-Outcome :
      (t : Tracker) (r : Request) (out : Bytes) (xs : List Read)
      → r.outcome ≡ before
      → StreamOutcome before (forward_loop gone t r out xs)
  unfolding forward_loop
  forward_loop-Outcome t r out [] h = inr h
  forward_loop-Outcome t r out (x ∷ xs) h =
      let t' : Tracker = if is_empty x.bytes then t else write t x.bytes in
      let r' : Request = if is_empty x.bytes then r else count_bytes r x.bytes in
      let h' : r'.outcome ≡ before = counted-outcome (is_empty x.bytes) r x.bytes ∙ h in
      let later = forward_loop-Outcome t' r' (out ++ x.bytes) xs h' in
      elim (Bool-cases (not (is_empty x.bytes) && x.write_fails)) [
        | inl gone_now ↦ rw gone_now (inr h')
        | inr there ↦ elim (Option-cases x.error) [
          | inl e ↦ rw (there, e) later
          | inr (e, ends) ↦ rw (there, ends) (end_stream-Outcome t' r' (out ++ x.bytes) e h')
        ]
      ]

-- What is recorded of a reply. A success is recorded only of one complete JSON object that the
-- client was sent, with its length, or of a stream for which the handler returned; the status is
-- the Gateway's and allows a body. Whatever was not a success stays "failed".
pub data Honest (env : Local) : Reply → Request → Type 0 where
  was_refused :
      (status : ℕ) (message kind : Bytes) (r : Request)
      → r.outcome ≡ outcome_failed
      → Honest env (refused status message kind) r
  was_normal :
      (status : ℕ) (body : Bytes) (r : Request)
      → is_json_object env.json_valid body ≡ true
      → forbids_body status ≡ false
      → r.status_code ≡ status
      → r.response_bytes ≡ length body
      → r.outcome ≡ outcome_encrypted
      → Honest env (normal status body) r
  was_streamed :
      (status : ℕ) (out : Bytes) (ending : Ending) (r : Request)
      → forbids_body status ≡ false
      → ((r.outcome ≡ outcome_encrypted) × (ending ≡ returned)) ⊎ (r.outcome ≡ outcome_failed)
      → Honest env (stream status out ending) r

abbrev pub HonestPair : Local → Reply × Request → Type 0
HonestPair env (reply, r) = Honest env reply r

module _ (env : Local) where
  forward_object-Honest :
      (status : ℕ) (r : Request) (body : Bytes)
      → r.outcome ≡ outcome_failed
      → r.status_code ≡ status
      → forbids_body status ≡ false
      → HonestPair env (forward_object env status r body)
  forward_object-Honest status r body h s f =
      elim (Bool-cases (is_json_object env.json_valid body)) [
        | inl e ↦ rw e (was_normal status body _ e f s refl refl)
        | inr e ↦ rw e (was_refused _ _ _ _ h)
      ]

  forward_read-Honest :
      (status : ℕ) (r : Request) (m : Result ReadLimitError Bytes)
      → r.outcome ≡ outcome_failed
      → r.status_code ≡ status
      → forbids_body status ≡ false
      → HonestPair env (forward_read env status r m)
  forward_read-Honest status r (err e) h s f = was_refused _ _ _ _ h
  forward_read-Honest status r (ok body) h s f =
      forward_object-Honest status r (trim_space body) h s f

  forward-Honest :
      (g : GatewayResponse) (r : Request)
      → r.outcome ≡ outcome_failed
      → r.status_code ≡ g.status
      → forbids_body g.status ≡ false
      → HonestPair env (forward env g r)
  unfolding forward forward_normal forward_event_stream
  forward-Honest g r h s f =
      elim (Bool-cases (is_event_stream env (env.media_type g.content_type))) [
        | inl e ↦ rw e (
            was_streamed _ _ _ _ f (
              forward_loop-Outcome g.gone outcome_failed new_tracker (record r { streaming = true })
                [] g.reads h))
        | inr e ↦ rw e (
            forward_read-Honest g.status r (read_all_limited g.body (pos max_normal_response)) h s
              f)
      ]

  after_exchange-Honest :
      (r : Request) (o : Option GatewayResponse) (id : Bytes)
      → r.outcome ≡ outcome_failed
      → HonestPair env (after_exchange env r (o, id))
  unfolding after_exchange
  after_exchange-Honest r none id h = was_refused _ _ _ _ h
  after_exchange-Honest r (some g) id h = elim (Bool-cases (forbids_body g.status)) [
    | inl e ↦ rw e (was_refused _ _ _ _ h)
    | inr e ↦
        rw e (forward-Honest g (record r { attestation_id = id; status_code = g.status }) h refl e)
  ]

  -- `body` is the whole body of a POST, within the limit, without the white space round it, and it
  -- is one JSON object.
  pub record Accepted (q : ChatRequest) (body : Bytes) : Type 0 where
    pub method : q.method ≡ codes "POST"
    pub complete : q.body.failure ≡ false
    pub bounded : length q.body.bytes ≤ max_request_bytes
    pub trimmed : body ≡ trim_space q.body.bytes
    pub object : is_json_object env.json_valid body ≡ true

  -- An error of the client's, or the body of the request.
  abbrev pub IsChecked : ChatRequest → Result Reply Bytes → Type 0
  IsChecked q (ok body) = Accepted q body
  IsChecked q (err (refused status message kind)) = Unit
  IsChecked q (err (normal status body)) = ⊥
  IsChecked q (err (stream status body left)) = ⊥

  module _ (q : ChatRequest) (post : q.method ≡ codes "POST") where
    checked_object-IsChecked :
        (b : Bytes)
        → q.body.failure ≡ false
        → length q.body.bytes ≤ max_request_bytes
        → b ≡ trim_space q.body.bytes
        → IsChecked q (checked_object env b)
    checked_object-IsChecked b complete bounded trimmed =
        elim (Bool-cases (is_json_object env.json_valid b)) [
          | inl e ↦ rw e (record {
            method = post;
            complete = complete;
            bounded = bounded;
            trimmed = trimmed;
            object = e;
          })
          | inr e ↦ rw e tt
        ]

    checked_body-IsChecked :
        (m : Result ReadLimitError Bytes)
        → read_all_limited q.body (pos max_request_bytes) ≡ m
        → IsChecked q (checked_body env m)
    checked_body-IsChecked (err e) h = tt
    checked_body-IsChecked (ok b) h =
        let (same, bounded, complete) =
          (read_all_limited_iff q.body max_request_bytes b (omega arith)).0 h in
        checked_object-IsChecked (trim_space b) complete (rw same bounded) (rw same refl)

  check_request-IsChecked : (q : ChatRequest) → IsChecked q (check_request env q)
  unfolding check_request
  check_request-IsChecked q = elim (Bool-cases (not (bytes_eq q.method (codes "POST")))) [
    | inl e ↦ rw e tt
    | inr e ↦ elim (Bool-cases (not (is_json env (env.media_type q.content_type)))) [
      | inl t ↦ rw (e, t) tt
      | inr t ↦
          rw (e, t)
            (checked_body-IsChecked q (passed_bytes_eq _ _ e)
              (read_all_limited q.body (pos max_request_bytes)) refl)
    ]
  ]

  Honest-duration :
      (reply : Reply) (r : Request) (d : ℕ)
      → Honest env reply r
      → Honest env reply (record r { duration_ms = d })
  Honest-duration reply r d (was_refused status message kind r0 h) =
      was_refused status message kind _ h
  Honest-duration reply r d (was_normal status body r0 j f s n o) =
      was_normal status body _ j f s n o
  Honest-duration reply r d (was_streamed status out ending r0 f o) =
      was_streamed status out ending _ f o

  module _ (k : Clock) (exchange : Bytes → Bytes → Bytes → Bytes → Option GatewayResponse × Bytes)
      (l : Option Ledger) (q : ChatRequest) where
    -- Refused, and nothing recorded; or the body of the request was accepted, and one honest record
    -- of the reply is appended.
    pub data Handled : Reply × Option Ledger → Type 0 where
      not_sent : (status : ℕ) (message kind : Bytes) → Handled (refused status message kind, l)
      was_sent :
          (body : Bytes) (reply : Reply) (r : Request)
          → Accepted q body
          → Honest env reply r
          → Handled (reply, record_request r l)

    recorded-Handled :
        (body : Bytes) (p : Reply × Request)
        → Accepted q body
        → HonestPair env p
        → Handled (recorded env k l p)
    recorded-Handled body (reply, r) c h =
        was_sent body reply _ c (Honest-duration reply r ((k.finished - k.started) / millisecond) h)

    exchange_with-Handled :
        (body id : Bytes) (o : Option Bytes)
        → Accepted q body
        → Handled (exchange_with env k exchange l q body id o)
    exchange_with-Handled body id none c = not_sent _ _ _
    exchange_with-Handled body id (some envelope) c =
        let x = exchange q.authorization q.accept q.user_agent envelope in
        recorded-Handled body (after_exchange env (first_record id k.started body) x) c
          (after_exchange-Honest (first_record id k.started body) x.0 x.1 refl)

    with_id-Handled :
        (body : Bytes) (o : Option Bytes)
        → Accepted q body
        → Handled (with_id env k exchange l q body o)
    with_id-Handled body none c = not_sent _ _ _
    with_id-Handled body (some id) c = exchange_with-Handled body id _ c

    with_body-Handled :
        (m : Result Reply Bytes) → IsChecked q m → Handled (with_body env k exchange l q m)
    with_body-Handled (ok body) c = with_id-Handled body env.new_id c
    with_body-Handled (err (refused status message kind)) c = not_sent status message kind
    with_body-Handled (err (normal status body)) c = absurd c
    with_body-Handled (err (stream status body left)) c = absurd c

    -- A chat request is refused with the ledger as it was; or it was a POST whose whole body, of at
    -- most 10 MiB and without the white space round it, was one JSON object, and exactly one record is
    -- appended. It is honest: it says "encrypted" only when the client was sent one
    -- complete JSON object, with its length, or a stream for which the handler returned, with a
    -- Gateway status that allows a body; everything else stays "failed".
    pub serve_chat-Handled : Handled (serve_chat env k exchange l q)
    unfolding serve_chat
    serve_chat-Handled = with_body-Handled (check_request env q) (check_request-IsChecked q)
