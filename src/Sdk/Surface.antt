-- ===== src/Sdk/Surface.antt =====
-- verification.go: the public view of the ledger.
use dappnode_nexus_sdk.Prelude.{
  ℕ, Bool, Option, none, some, List, [], ◌∷◌, map, ◌≡◌, refl, ap, ◌∙◌, Bool-cases, inl, inr,
}
use mathlib.Core.List.{reverse}
use dappnode_nexus_sdk.Prelude.Bytes.{Bytes}
use dappnode_nexus_sdk.Prelude.Time.{Time}
use dappnode_nexus_sdk.Ledger
use dappnode_nexus_sdk.Ledger.{without_evidence, is_verified, snapshot, snapshot_current}

pub record Check : Type 0 where
  pub name : Bytes
  pub passed : Bool
  pub detail : Bytes

-- A record without its evidence.
pub record Attestation : Type 0 where
  pub id : Bytes
  pub outcome : Bytes
  pub verified_at : Time
  pub failure : Bytes
  pub attested_at : Time
  pub expires_at : Time
  pub module_id : Bytes
  pub hpke_public_key : Bytes
  pub nonce : Bytes
  pub pcr0 : Bytes
  pub pcr1 : Bytes
  pub pcr2 : Bytes
  pub source_revision : Bytes
  pub workload : Bytes
  pub profile : Bytes
  pub root_fingerprint : Bytes
  pub checks : List Check
  pub document_bytes : ℕ

pub record Request : Type 0 where
  pub id : Bytes
  pub started_at : Time
  pub duration_ms : ℕ
  pub attestation_id : Bytes
  pub outcome : Bytes
  pub failure : Bytes
  pub status_code : ℕ
  pub request_bytes : ℕ
  pub response_bytes : ℕ
  pub streaming : Bool

pub record Snapshot : Type 0 where
  pub status : Bytes
  pub generated_at : Time
  pub verified_total : ℕ
  pub rejected_total : ℕ
  pub encrypted_total : ℕ
  pub failed_total : ℕ
  pub persistent : Bool
  pub current : Option Attestation
  pub attestations : List Attestation
  pub requests : List Request

pub record Evidence : Type 0 where
  pub attestation_id : Bytes
  pub document : Bytes
  pub manifest : Bytes

abbrev check_from : Ledger.Check → Check
check_from c = record { name = c.name; passed = c.passed; detail = c.detail }

unfoldable pub attestation_from_ledger : Ledger.Attestation → Attestation
attestation_from_ledger a = record {
  id = a.id;
  outcome = a.outcome;
  verified_at = a.verified_at;
  failure = a.failure;
  attested_at = a.attested_at;
  expires_at = a.expires_at;
  module_id = a.module_id;
  hpke_public_key = a.hpke_public_key;
  nonce = a.nonce;
  pcr0 = a.pcr0;
  pcr1 = a.pcr1;
  pcr2 = a.pcr2;
  source_revision = a.source_revision;
  workload = a.workload;
  profile = a.profile;
  root_fingerprint = a.root_fingerprint;
  checks = map check_from a.checks;
  document_bytes = a.document_bytes;
}

abbrev request_from : Ledger.Request → Request
request_from r = record {
  id = r.id;
  started_at = r.started_at;
  duration_ms = r.duration_ms;
  attestation_id = r.attestation_id;
  outcome = r.outcome;
  failure = r.failure;
  status_code = r.status_code;
  request_bytes = r.request_bytes;
  response_bytes = r.response_bytes;
  streaming = r.streaming;
}

abbrev pub map_option : {A B : Type 0} → (A → B) → Option A → Option B
map_option f none = none
map_option f (some a) = some (f a)

unfoldable pub snapshot_from_ledger : Ledger.Snapshot → Snapshot
snapshot_from_ledger s = record {
  status = s.status;
  generated_at = s.generated_at;
  verified_total = s.verified_total;
  rejected_total = s.rejected_total;
  encrypted_total = s.encrypted_total;
  failed_total = s.failed_total;
  persistent = s.persistent;
  current = map_option attestation_from_ledger s.current;
  attestations = map attestation_from_ledger s.attestations;
  requests = map request_from s.requests;
}

-- The other way, for a record whose evidence was left out.
abbrev check_to : Check → Ledger.Check
check_to c = record { name = c.name; passed = c.passed; detail = c.detail }

abbrev attestation_to : Attestation → Ledger.Attestation
attestation_to a = record {
  id = a.id;
  outcome = a.outcome;
  verified_at = a.verified_at;
  failure = a.failure;
  attested_at = a.attested_at;
  expires_at = a.expires_at;
  module_id = a.module_id;
  hpke_public_key = a.hpke_public_key;
  nonce = a.nonce;
  pcr0 = a.pcr0;
  pcr1 = a.pcr1;
  pcr2 = a.pcr2;
  source_revision = a.source_revision;
  workload = a.workload;
  profile = a.profile;
  root_fingerprint = a.root_fingerprint;
  checks = map check_to a.checks;
  document_bytes = a.document_bytes;
  document = [];
  manifest = [];
}

abbrev request_to : Request → Ledger.Request
request_to r = record {
  id = r.id;
  started_at = r.started_at;
  duration_ms = r.duration_ms;
  attestation_id = r.attestation_id;
  outcome = r.outcome;
  failure = r.failure;
  status_code = r.status_code;
  request_bytes = r.request_bytes;
  response_bytes = r.response_bytes;
  streaming = r.streaming;
}

pub snapshot_to : Snapshot → Ledger.Snapshot
snapshot_to s = record {
  status = s.status;
  generated_at = s.generated_at;
  verified_total = s.verified_total;
  rejected_total = s.rejected_total;
  encrypted_total = s.encrypted_total;
  failed_total = s.failed_total;
  persistent = s.persistent;
  current = map_option attestation_to s.current;
  attestations = map attestation_to s.attestations;
  requests = map request_to s.requests;
}

map-map_same :
    {A B : Type 0} (f : A → B) (g : B → A) (xs : List A)
    → ((a : A) → g (f a) ≡ a)
    → map g (map f xs) ≡ xs
map-map_same f g [] h = refl
map-map_same f g (x ∷ xs) h =
    ap (λ y. y ∷ map g (map f xs)) (h x) ∙ ap (◌∷◌ x) (map-map_same f g xs h)

attestation_to-from :
    (a : Ledger.Attestation) → attestation_to (attestation_from_ledger a) ≡ without_evidence a
unfolding attestation_from_ledger
attestation_to-from a =
    ap (λ x. record (without_evidence a) { checks = x })
      (map-map_same check_from check_to a.checks (λ c. refl))

attestations_to-from :
    (xs : List Ledger.Attestation)
    → map attestation_to (map attestation_from_ledger (map without_evidence xs))
      ≡ map without_evidence xs
attestations_to-from [] = refl
attestations_to-from (x ∷ xs) =
    ap (λ y. y ∷ map attestation_to (map attestation_from_ledger (map without_evidence xs)))
      (attestation_to-from (without_evidence x))
    ∙ ap (◌∷◌ (without_evidence x)) (attestations_to-from xs)

current_to-from :
    (xs : List Ledger.Attestation)
    → map_option attestation_to
        (map_option attestation_from_ledger (snapshot_current (map without_evidence xs)))
      ≡ snapshot_current (map without_evidence xs)
unfolding snapshot_current
current_to-from [] = refl
current_to-from (x ∷ xs) = elim (Bool-cases (is_verified (without_evidence x))) [
  | inl t ↦ rw t (ap some (attestation_to-from (without_evidence x)))
  | inr t ↦ rw t refl
]

-- The public snapshot of a ledger leaves nothing out: the ledger's own, which holds no evidence,
-- can be made from it again.
pub snapshot_to-snapshot_from_ledger :
    (now : Time) (l : Ledger.Ledger)
    → snapshot_to (snapshot_from_ledger (snapshot now l)) ≡ snapshot now l
unfolding snapshot_to snapshot_from_ledger snapshot
snapshot_to-snapshot_from_ledger now l =
    let s = snapshot now l in
    ap
      (λ c. record s {
        current = c;
        attestations = map attestation_to (map attestation_from_ledger s.attestations);
        requests = map request_to (map request_from s.requests);
      })
      (current_to-from (reverse l.attestations))
    ∙ (ap
          (λ xs. record s {
            attestations = xs;
            requests = map request_to (map request_from s.requests);
          })
          (attestations_to-from (reverse l.attestations))
        ∙ ap (λ rs. record s { requests = rs })
            (map-map_same request_from request_to s.requests (λ r. refl)))
