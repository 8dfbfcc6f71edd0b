-- ===== src/Sdk/Methods.antt =====
-- client.go: the methods of Client. A nil Client is `none`; `context` says that the context is not
-- nil.
pub mod Verified
use dappnode_nexus_sdk.Prelude.{
  Bool, true, false, not, ◌||◌, Option, none, some, List, [], ◌∷◌, ◌++◌, is_empty,
}
use dappnode_nexus_sdk.Prelude.Bytes.{Bytes, codes}
use dappnode_nexus_sdk.Prelude.Result.{Result, ok, err, reject}
use dappnode_nexus_sdk.Prelude.Space.{trim_space}
use dappnode_nexus_sdk.Prelude.Time.{Time}
use dappnode_nexus_sdk.Http.{HttpRequest}
use dappnode_nexus_sdk.Attestation.Verifier.Types.{Evidence}
use dappnode_nexus_sdk.Ledger
use dappnode_nexus_sdk.Ledger.{Ledger, snapshot, document}
use dappnode_nexus_sdk.Confidential
use dappnode_nexus_sdk.Confidential.{Clock, Ehbp, VerifiedSession, SessionError, reverify}
use dappnode_nexus_sdk.Sdk.Client.{Client}
use dappnode_nexus_sdk.Sdk.Surface
use dappnode_nexus_sdk.Sdk.Surface.{attestation_from_ledger, snapshot_from_ledger}

pub data ApiError : Type 0 where
  nil_client no_context no_api_key invalid_body : ApiError
  verification_failed : SessionError → ApiError
  no_current_record evidence_not_found : ApiError

abbrev in_process_base_url : Bytes
in_process_base_url = codes "http://nexus.local/v1"

abbrev status_starting : Bytes
status_starting = codes "starting"

abbrev pub is_nil {ℓ} : {A : Type ℓ} → Option A → Bool
is_nil none = true
is_nil (some a) = false

abbrev pub request : Bytes → Bytes → List (Bytes × Bytes) → Bytes → HttpRequest
request method path headers body = record {
  method = method;
  url = in_process_base_url ++ path;
  headers = headers;
  body = body;
}

-- ChatCompletions up to Do, with json.Valid as a parameter.
unfoldable pub chat_completions :
    {T : Type 0}
    → (Bytes → Bool)
    → Option (Client T)
    → Bool
    → Bytes
    → Bytes
    → Result ApiError HttpRequest
unfolding trim_space
chat_completions valid c context api_key body = reject (is_nil c) nil_client (
    reject (not context) no_context (
      reject (is_empty (trim_space api_key)) no_api_key (
        reject (is_empty (trim_space body) || not (valid body)) invalid_body (
          ok (
            request (codes "POST") (codes "/chat/completions")
              ((codes "Authorization", codes "Bearer " ++ api_key)
                ∷ (codes "Content-Type", codes "application/json")
                ∷ (codes "Accept", codes "application/json")
                ∷ [])
              body)))))

-- Models up to Do.
unfoldable pub models : {T : Type 0} → Option (Client T) → Bool → Result ApiError HttpRequest
models c context = reject (is_nil c) nil_client (
    reject (not context) no_context (
      ok (
        request (codes "GET") (codes "/models") ((codes "Accept", codes "application/json") ∷ [])
          [])))

abbrev pub starting : Time → Surface.Snapshot
starting now = record {
  status = status_starting;
  generated_at = now;
  verified_total = 0;
  rejected_total = 0;
  encrypted_total = 0;
  failed_total = 0;
  persistent = false;
  current = none;
  attestations = [];
  requests = [];
}

abbrev pub snapshot_or : Time → Option Ledger → Surface.Snapshot
snapshot_or now none = starting now
snapshot_or now (some l) = snapshot_from_ledger (snapshot now l)

-- Verification
unfoldable pub verification : {T : Type 0} → Time → Option (Client T) → Surface.Snapshot
verification now none = starting now
verification now (some c) = snapshot_or now c.confidential.ledger

abbrev evidence_of : Bytes → Option (Bytes × Bytes) → Result ApiError Surface.Evidence
evidence_of id none = err evidence_not_found
evidence_of id (some (d, m)) = ok (record { attestation_id = id; document = d; manifest = m })

abbrev evidence_in : Bytes → Option Ledger → Result ApiError Surface.Evidence
evidence_in id none = err nil_client
evidence_in id (some l) = evidence_of id (document id l)

-- Evidence
unfoldable pub evidence :
    {T : Type 0} → Bytes → Option (Client T) → Result ApiError Surface.Evidence
evidence id none = err nil_client
evidence id (some c) = evidence_in id c.confidential.ledger

abbrev pub current_or : Option Surface.Attestation → Result ApiError Surface.Attestation
current_or none = err no_current_record
current_or (some a) = ok a

module _ {I T R : Type 0} (ehbp : Ehbp I T R) where
  abbrev pub after_reverify :
      Client T
      → Time
      → Confidential.Client T × Result SessionError (VerifiedSession T)
      → Client T × Result ApiError Surface.Attestation
  after_reverify c now (k, err e) = (record c { confidential = k }, err (verification_failed e))
  after_reverify c now (k, ok s) =
      let c' = record c { confidential = k } in
      (c', current_or (verification now (some c')).current)

  -- Verify of a Client and a context that are not nil; `now` is when the snapshot is made.
  unfoldable pub verify :
      Client T
      → Clock
      → Time
      → Result Bytes (Option Evidence)
      → Client T × Result ApiError Surface.Attestation
  verify c k now outcome = after_reverify c now (reverify ehbp c.confidential k outcome)
