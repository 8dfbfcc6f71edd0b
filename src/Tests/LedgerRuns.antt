-- ===== src/Tests/LedgerRuns.antt =====
-- Runs of the ledger, of its state file, and of the replacement of a file.
use dappnode_nexus_sdk.Prelude.{
  ℕ, zero, suc, ◌+◌, ◌≡◌, refl, true, false, none, some, List, [], ◌∷◌, length, arith, leb→le,
}
use dappnode_nexus_sdk.Prelude.Bytes.{Bytes, codes}
use dappnode_nexus_sdk.Prelude.Result.{ok, err}
use mathlib.Core.List.{reverse}
use dappnode_nexus_sdk.AtomicFile.{
  Files, Faults, Step, IsAtomic, state_steps, replace_file, run_steps, state_file-IsAtomic,
}
use dappnode_nexus_sdk.Ledger.{
  Attestation, Request, Ledger, no_attestation, new, document, outcome_encrypted,
}
use dappnode_nexus_sdk.Ledger.History.{
  Event, verified, rejected, request, run, attestation_log, request_log, count, counts_verified,
  counts_rejected, counts_encrypted, counts_failed, ShowsLog, HasTotals, run-new,
}
use dappnode_nexus_sdk.Ledger.Evidence.{FoundIn, document-FoundIn}
use dappnode_nexus_sdk.Ledger.Persist.{
  Codec, snapshot_for_disk, flush, open_ledger, max_state_bytes, FlushError,
}
use dappnode_nexus_sdk.Tests.JsonRuns.{
  ascii, drop_spaces, encode, one_codec, one_codec-IsJson, counted, counted_bytes, counted_texts,
  encoded,
}
use dappnode_nexus_sdk.Ledger.Restart.{
  read_file, restarted, open-flush, open-flush_too_large, FailsSafely, flush-FailsSafely,
}
use dappnode_nexus_sdk.Ledger.Flush.{
  Shared, Reach, Alone, Step as FlushStep, IsSaved, Alone-on_disk, overlapping_flushes,
}

abbrev attested : Attestation
attested = record no_attestation { id = codes "key-1" }

abbrev asked : Request
asked = record {
  id = codes "request-1";
  started_at = 5;
  duration_ms = 1;
  attestation_id = codes "key-1";
  outcome = outcome_encrypted;
  failure = [];
  status_code = 200;
  request_bytes = 10;
  response_bytes = 20;
  streaming = false;
}

abbrev events : List Event
events =
    verified 3 attested (codes "document") (codes "{}")
    ∷ rejected 4 (codes "stale")
    ∷ request asked
    ∷ []

run-new_example :
    ShowsLog (attestation_log 0 events) (request_log events) (run events (some new))
    × HasTotals
        (count counts_verified events)
        (count counts_rejected events)
        (count counts_encrypted events)
        (count counts_failed events)
        (run events (some new))
run-new_example = run-new events

-- A ledger with two verifications by one key.
abbrev twice : Ledger
twice = record new {
  attestations =
      record attested { document = codes "old"; manifest = codes "{}" }
      ∷ record attested { document = codes "new"; manifest = codes "{}" }
      ∷ [];
  requests = asked ∷ [];
  store = some (record { path = codes "state.json"; dirty = true });
}

document-FoundIn_example :
    FoundIn (codes "key-1") (document (codes "key-1") twice) (reverse twice.attestations)
document-FoundIn_example = document-FoundIn (codes "key-1") twice

-- Files and faults.
abbrev old_files : Files
old_files = record {
  target = some (record { contents = codes "old"; mode = 0o600 });
  temporary = none;
}

abbrev no_faults : Faults
no_faults = record { fails = λ s. false; written = 0 }

abbrev full_disk : Faults
full_disk = record { fails = λ s. elim s [ Step.write b ↦ true | _ ↦ false ]; written = 2 }

state_file-IsAtomic_example :
    IsAtomic old_files
      (record { contents = codes "new state"; mode = 0o600 })
      (replace_file full_disk (state_steps (codes "new state")) old_files)
state_file-IsAtomic_example = state_file-IsAtomic full_disk (codes "new state") old_files

flushed : (flush one_codec no_faults 7 counted old_files).result ≡ ok tt
unfolding flush replace_file run_steps snapshot_for_disk encode
flushed = refl

open-flush_example :
    open_ledger one_codec
      (codes "state.json")
      true
      (read_file (flush one_codec no_faults 7 counted old_files).files)
    ≡ ok (restarted drop_spaces (codes "state.json") counted)
open-flush_example =
    open-flush ascii drop_spaces one_codec no_faults 7 counted old_files
      (record { path = codes "state.json"; dirty = true }) counted_bytes one_codec-IsJson
      counted_texts (omega arith) (omega arith) refl refl refl encoded (leb→le _ _ refl) flushed

failed_write :
    (flush one_codec full_disk 7 counted old_files).result
    ≡ err (FlushError.write_state (Step.write counted_bytes))
unfolding flush replace_file run_steps encode snapshot_for_disk
failed_write = refl

flush-FailsSafely_example : FailsSafely old_files (flush one_codec full_disk 7 counted old_files)
flush-FailsSafely_example = flush-FailsSafely one_codec full_disk 7 counted old_files failed_write

-- A codec whose texts are larger than the bound.
unfoldable zeros : ℕ → Bytes
zeros zero = []
zeros (suc n) = 0 ∷ zeros n

length-zeros : (n : ℕ) → length (zeros n) ≡ n
unfolding zeros
length-zeros zero = refl
length-zeros (suc n) = omega (arith, length-zeros n)

abbrev large_codec : Codec
large_codec = record { marshal = λ s. some (zeros (max_state_bytes + 1)); unmarshal = λ b. none }

flushed_large : (flush large_codec no_faults 7 twice old_files).result ≡ ok tt
unfolding flush replace_file run_steps
flushed_large = refl

open-flush_too_large_example :
    open_ledger large_codec
      (codes "state.json")
      true
      (read_file (flush large_codec no_faults 7 twice old_files).files)
    ≡ ok (record new { store = some (record { path = codes "state.json"; dirty = false }) })
open-flush_too_large_example =
    open-flush_too_large large_codec no_faults 7 twice old_files
      (record { path = codes "state.json"; dirty = true }) (zeros (max_state_bytes + 1)) refl refl
      refl refl (omega (arith, length-zeros (max_state_bytes + 1))) flushed_large

-- One flush, alone.
abbrev start : Shared ℕ
start = record { memory = 1; dirty = true; disk = none; begun = 0; copies = [] }

abbrev saved : Shared ℕ
saved = record { memory = 1; dirty = false; disk = some 1; begun = 0; copies = [] }

abbrev one_flush : Alone start saved
one_flush =
    Alone.next
      (Alone.next (Alone.next Alone.here (FlushStep.begin _ refl) (omega arith))
        (FlushStep.copy _ 0 refl) (omega arith))
      (FlushStep.write _ [] [] 1 refl) (omega arith)

Alone-on_disk_example : saved.disk ≡ some saved.memory
Alone-on_disk_example =
    Alone-on_disk (omega arith) (IsSaved.marked refl) one_flush
      (record { none_begun = refl; none_copied = refl }) refl

overlapping_flushes_example :
    Reach
      (record { memory = codes "old"; dirty = true; disk = none; begun = 0; copies = [] })
      (record {
        memory = codes "new";
        dirty = false;
        disk = some (codes "old");
        begun = 0;
        copies = [];
      })
overlapping_flushes_example = overlapping_flushes (codes "old") (codes "new") none
