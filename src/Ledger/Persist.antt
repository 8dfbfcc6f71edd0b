-- ===== src/Ledger/Persist.antt =====
-- internal/ledger/store.go: the state file of a ledger.
-- encoding/json is the parameter `Codec`; the directory of the state file is `AtomicFile.Files`.
use dappnode_nexus_sdk.Prelude.{
  ℕ, ◌*◌, ◌^◌, Bool, false, not, ◌||◌, Option, none, some, List, [], ◌∷◌, map, ltb, ◌==◌,
  if◌then◌else◌, length, is_empty,
}
use dappnode_nexus_sdk.Prelude.Bytes.{Bytes}
use dappnode_nexus_sdk.Prelude.Result.{Result, ok, err}
use dappnode_nexus_sdk.Prelude.Time.{Time}
use dappnode_nexus_sdk.AtomicFile.{Step, Files, Faults, Outcome, replace_file, state_steps}
use dappnode_nexus_sdk.Ledger.{
  Attestation, Request, Store, Ledger, new, append_capped, max_attestations, max_requests,
  mark_dirty,
}

abbrev pub state_schema_version : ℕ
state_schema_version = 1

abbrev pub max_state_bytes : ℕ
max_state_bytes = 32 * 2 ^ 20

-- The embedded Attestation is written without its unexported evidence, which stands beside it.
pub record PersistedAttestation : Type 0 where
  pub attestation : Attestation
  pub document : Bytes
  pub manifest : Bytes

pub record PersistedState : Type 0 where
  pub schema_version : ℕ
  pub written_at : Time
  pub verified_total : ℕ
  pub rejected_total : ℕ
  pub encrypted_total : ℕ
  pub failed_total : ℕ
  pub attestations : List PersistedAttestation
  pub requests : List Request

-- json.Marshal and json.Unmarshal at `persistedState`.
pub record Codec : Type 0 where
  pub marshal : PersistedState → Option Bytes
  pub unmarshal : Bytes → Option PersistedState

abbrev pub persist : Attestation → PersistedAttestation
persist a = record { attestation = a; document = a.document; manifest = a.manifest }

unfoldable pub snapshot_for_disk : Time → Ledger → PersistedState
snapshot_for_disk now l = record {
  schema_version = state_schema_version;
  written_at = now;
  verified_total = l.verified_total;
  rejected_total = l.rejected_total;
  encrypted_total = l.encrypted_total;
  failed_total = l.failed_total;
  attestations = map persist l.attestations;
  requests = l.requests;
}

abbrev pub restore : PersistedAttestation → Attestation
restore e = record e.attestation { document = e.document; manifest = e.manifest }

-- The two loops of loadFrom.
unfoldable pub load_attestations : List Attestation → List PersistedAttestation → List Attestation
load_attestations acc [] = acc
load_attestations acc (e ∷ es) =
    load_attestations (append_capped acc (restore e) max_attestations) es

unfoldable pub load_requests : List Request → List Request → List Request
load_requests acc [] = acc
load_requests acc (r ∷ rs) = load_requests (append_capped acc r max_requests) rs

unfoldable pub load_state : PersistedState → Ledger → Ledger
unfolding load_attestations load_requests
load_state s l = record l {
  verified_total = s.verified_total;
  rejected_total = s.rejected_total;
  encrypted_total = s.encrypted_total;
  failed_total = s.failed_total;
  attestations = load_attestations l.attestations s.attestations;
  requests = load_requests l.requests s.requests;
}

-- What loadFrom does with the decoded value: another schema version changes nothing.
abbrev pub load_decoded : Option PersistedState → Ledger → Ledger
load_decoded none l = l
load_decoded (some s) l =
    if not (s.schema_version == state_schema_version) then l else load_state s l

-- loadFrom, on what os.ReadFile returned.
unfoldable pub load_from : Codec → Option Bytes → Ledger → Ledger
load_from c none l = l
load_from c (some b) l =
    if is_empty b || ltb max_state_bytes (length b) then l else load_decoded (c.unmarshal b) l

pub data OpenError : Type 0 where
  path_required create_directory : OpenError

-- Open: `made` says whether os.MkdirAll succeeded, `read` what os.ReadFile returned.
unfoldable pub open_ledger : Codec → Bytes → Bool → Option Bytes → Result OpenError Ledger
unfolding load_from
open_ledger c path made read =
    if is_empty path
    then err path_required
    else if not made
    then err create_directory
    else ok (load_from c read (record new { store = some (record { path = path; dirty = false }) }))

pub data FlushError : Type 0 where
  encode_state : FlushError
  write_state : Step → FlushError

pub record Flushed : Type 0 where
  pub ledger : Ledger
  pub files : Files
  pub result : Result FlushError (Unit {0})

-- What follows the encoding: the file is replaced, and a failure marks the ledger again.
abbrev pub flush_written : Ledger → Outcome → Flushed
flush_written l o = elim o.result [
  | ok u ↦ record { ledger = l; files = o.files; result = ok tt }
  | err s ↦ record { ledger = mark_dirty l; files = o.files; result = err (write_state s) }
]

abbrev pub flush_encoded : Faults → Option Bytes → Ledger → Files → Flushed
flush_encoded x none l f = record { ledger = mark_dirty l; files = f; result = err encode_state }
flush_encoded x (some b) l f = flush_written l (replace_file x (state_steps b) f)

abbrev pub with_store : Codec → Faults → Time → Option Store → Ledger → Files → Flushed
with_store c x now none l f = record { ledger = l; files = f; result = ok tt }
with_store c x now (some s) l f =
    if not s.dirty
    then record { ledger = l; files = f; result = ok tt }
    else flush_encoded x (c.marshal (snapshot_for_disk now l))
        (record l { store = some (record s { dirty = false }) }) f

-- Flush on a ledger that is not nil, with no other flush at the same time.
unfoldable pub flush : Codec → Faults → Time → Ledger → Files → Flushed
flush c x now l f = with_store c x now l.store l f
