-- ===== src/Ledger.antt =====
-- internal/ledger/ledger.go: the bounded in-memory record of verifications and requests.
-- A method on a nil *Ledger does nothing, so the recorders take an `Option Ledger`; l.now() is
-- the argument `now`. The state file is `Store` (see Ledger/Persist).
pub mod Bounds
pub mod History
pub mod Evidence
pub mod Persist
pub mod Restart
pub mod Flush
use mathlib.Core.List.{reverse}
use dappnode_nexus_sdk.Prelude.{
  ℕ, ◌+◌, ◌/◌, ◌%◌, ◌^◌, Bool, true, false, not, ◌&&◌, Option, none, some, List, [], ◌∷◌, ◌++◌, map,
  ltb, ◌==◌, if◌then◌else◌, length, drop, is_empty,
}
use dappnode_nexus_sdk.Prelude.Bytes.{Bytes, codes, bytes_eq}
use dappnode_nexus_sdk.Prelude.Hex.{hex_encode}
use dappnode_nexus_sdk.Prelude.Time.{Time}

abbrev pub max_attestations : ℕ
max_attestations = 64

abbrev pub max_requests : ℕ
max_requests = 256

abbrev pub outcome_verified : Bytes
outcome_verified = codes "verified"

abbrev pub outcome_rejected : Bytes
outcome_rejected = codes "rejected"

abbrev pub outcome_encrypted : Bytes
outcome_encrypted = codes "encrypted"

abbrev pub outcome_failed : Bytes
outcome_failed = codes "failed"

pub record Check : Type 0 where
  pub name : Bytes
  pub passed : Bool
  pub detail : Bytes

pub record Attestation : Type 0 where
  pub id : Bytes
  pub outcome : Bytes
  pub verified_at : Time
  pub failure : Bytes
  pub attested_at : Time
  pub expires_at : Time
  pub module_id : Bytes
  pub hpke_public_key : Bytes
  pub nonce : Bytes
  pub pcr0 : Bytes
  pub pcr1 : Bytes
  pub pcr2 : Bytes
  pub source_revision : Bytes
  pub workload : Bytes
  pub profile : Bytes
  pub root_fingerprint : Bytes
  pub checks : List Check
  pub document_bytes : ℕ
  pub document : Bytes
  pub manifest : Bytes

-- The zero value of the struct.
abbrev pub no_attestation : Attestation
no_attestation = record {
  id = [];
  outcome = [];
  verified_at = 0;
  failure = [];
  attested_at = 0;
  expires_at = 0;
  module_id = [];
  hpke_public_key = [];
  nonce = [];
  pcr0 = [];
  pcr1 = [];
  pcr2 = [];
  source_revision = [];
  workload = [];
  profile = [];
  root_fingerprint = [];
  checks = [];
  document_bytes = 0;
  document = [];
  manifest = [];
}

-- Times of a request are those of `Time`; the duration is in whole milliseconds.
pub record Request : Type 0 where
  pub id : Bytes
  pub started_at : Time
  pub duration_ms : ℕ
  pub attestation_id : Bytes
  pub outcome : Bytes
  pub failure : Bytes
  pub status_code : ℕ
  pub request_bytes : ℕ
  pub response_bytes : ℕ
  pub streaming : Bool

-- The `store` struct of store.go: the path of the state file, and whether it is out of date.
pub record Store : Type 0 where
  pub path : Bytes
  pub dirty : Bool

pub record Ledger : Type 0 where
  pub attestations : List Attestation
  pub requests : List Request
  pub verified_total : ℕ
  pub rejected_total : ℕ
  pub encrypted_total : ℕ
  pub failed_total : ℕ
  pub store : Option Store

abbrev pub new : Ledger
new = record {
  attestations = [];
  requests = [];
  verified_total = 0;
  rejected_total = 0;
  encrypted_total = 0;
  failed_total = 0;
  store = none;
}

-- `n++` on a uint64.
abbrev pub incr : ℕ → ℕ
incr n = (n + 1) % 2 ^ 64

-- copy(items, items[1:]) and the write of the last slot drop the oldest item.
unfoldable pub append_capped {ℓ} : {A : Type ℓ} → List A → A → ℕ → List A
append_capped items item limit =
    if ltb (length items) limit then items ++ item ∷ [] else drop 1 items ++ item ∷ []

abbrev pub set_dirty : Option Store → Option Store
set_dirty none = none
set_dirty (some s) = some (record s { dirty = true })

abbrev pub mark_dirty : Ledger → Ledger
mark_dirty l = record l { store = set_dirty l.store }

-- The record that RecordVerified builds before it takes the lock, and its time stamp after.
abbrev pub verified_record : Time → Attestation → Bytes → Bytes → Attestation
verified_record now r document manifest = record r {
  outcome = outcome_verified;
  document = document;
  manifest = manifest;
  document_bytes = length document;
  verified_at = if r.verified_at == 0 then now else r.verified_at;
}

add_verified : Time → Attestation → Bytes → Bytes → Ledger → Ledger
add_verified now r document manifest l = mark_dirty (record l {
  verified_total = incr l.verified_total;
  attestations =
      append_capped l.attestations (verified_record now r document manifest) max_attestations;
})

unfoldable pub record_verified : Time → Attestation → Bytes → Bytes → Option Ledger → Option Ledger
unfolding add_verified
record_verified now r document manifest none = none
record_verified now r document manifest (some l) = some (add_verified now r document manifest l)

-- []byte{byte(total >> 8), byte(total)}
unfoldable pub rejected_id : ℕ → Bytes
unfolding hex_encode
rejected_id total = codes "rejected-" ++ hex_encode ((total / 2 ^ 8) % 256 ∷ total % 256 ∷ [])

abbrev pub rejected_record : Time → Bytes → ℕ → Attestation
rejected_record now failure total = record no_attestation {
  id = rejected_id total;
  outcome = outcome_rejected;
  verified_at = now;
  failure = failure;
}

add_rejected : Time → Bytes → Ledger → Ledger
add_rejected now failure l =
    let total = incr l.rejected_total in
    mark_dirty (record l {
      rejected_total = total;
      attestations =
          append_capped l.attestations (rejected_record now failure total) max_attestations;
    })

unfoldable pub record_rejected : Time → Bytes → Option Ledger → Option Ledger
unfolding add_rejected
record_rejected now failure none = none
record_rejected now failure (some l) = some (add_rejected now failure l)

abbrev pub is_encrypted : Request → Bool
is_encrypted r = bytes_eq r.outcome outcome_encrypted

add_request : Request → Ledger → Ledger
add_request r l = mark_dirty (record l {
  encrypted_total = if is_encrypted r then incr l.encrypted_total else l.encrypted_total;
  failed_total = if is_encrypted r then l.failed_total else incr l.failed_total;
  requests = append_capped l.requests r max_requests;
})

unfoldable pub record_request : Request → Option Ledger → Option Ledger
unfolding add_request
record_request r none = none
record_request r (some l) = some (add_request r l)

pub record Snapshot : Type 0 where
  pub status : Bytes
  pub generated_at : Time
  pub verified_total : ℕ
  pub rejected_total : ℕ
  pub encrypted_total : ℕ
  pub failed_total : ℕ
  pub persistent : Bool
  pub current : Option Attestation
  pub attestations : List Attestation
  pub requests : List Request

abbrev pub without_evidence : Attestation → Attestation
without_evidence a = record a { document = []; manifest = [] }

abbrev pub is_verified : Attestation → Bool
is_verified a = bytes_eq a.outcome outcome_verified

-- The switch of Snapshot, on the newest-first list.
unfoldable pub snapshot_status : List Attestation → Bytes
snapshot_status [] = codes "starting"
snapshot_status (a ∷ rest) = if is_verified a then outcome_verified else outcome_rejected

unfoldable pub snapshot_current : List Attestation → Option Attestation
snapshot_current [] = none
snapshot_current (a ∷ rest) = if is_verified a then some a else none

abbrev pub is_some {ℓ} : {A : Type ℓ} → Option A → Bool
is_some none = false
is_some (some a) = true

unfoldable pub snapshot : Time → Ledger → Snapshot
unfolding snapshot_status snapshot_current
snapshot now l =
    let newest = map without_evidence (reverse l.attestations) in
    record {
      status = snapshot_status newest;
      generated_at = now;
      verified_total = l.verified_total;
      rejected_total = l.rejected_total;
      encrypted_total = l.encrypted_total;
      failed_total = l.failed_total;
      persistent = is_some l.store;
      current = snapshot_current newest;
      attestations = newest;
      requests = reverse l.requests;
    }

abbrev pub has_evidence : Bytes → Attestation → Bool
has_evidence id a = bytes_eq a.id id && not (is_empty a.document)

-- The loop of Document, over the records from the newest on.
unfoldable pub find_evidence : Bytes → List Attestation → Option (Bytes × Bytes)
find_evidence id [] = none
find_evidence id (a ∷ rest) =
    if has_evidence id a then some (a.document, a.manifest) else find_evidence id rest

unfoldable pub document : Bytes → Ledger → Option (Bytes × Bytes)
unfolding find_evidence
document id l = find_evidence id (reverse l.attestations)
