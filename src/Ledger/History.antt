-- ===== src/Ledger/History.antt =====
-- The bounded ledger against its whole history: what a ledger holds after any sequence of
-- recorded events (internal/ledger/ledger.go).
use dappnode_nexus_sdk.Prelude.{
  ℕ, ◌+◌, ◌%◌, ◌^◌, List, [], ◌∷◌, ◌++◌, ◌≡◌, refl, arith, Bool, true, false, Option, none, some,
  if◌then◌else◌, last_n, append_assoc, append-nil,
}
use dappnode_nexus_sdk.Prelude.Bytes.{Bytes}
use dappnode_nexus_sdk.Prelude.Time.{Time}
use dappnode_nexus_sdk.Ledger.{
  Attestation, Request, Ledger, new, incr, max_attestations, max_requests, verified_record,
  rejected_record, is_encrypted, add_verified, add_rejected, add_request, record_verified,
  record_rejected, record_request,
}
use dappnode_nexus_sdk.Ledger.Bounds.{append_capped-last_n}

-- One call of a recorder, with its arguments and the clock that it reads.
pub data Event : Type 0 where
  verified : Time → Attestation → Bytes → Bytes → Event
  rejected : Time → Bytes → Event
  request : Request → Event

abbrev pub apply : Event → Option Ledger → Option Ledger
apply (verified now r d m) l = record_verified now r d m l
apply (rejected now failure) l = record_rejected now failure l
apply (request r) l = record_request r l

unfoldable pub run : List Event → Option Ledger → Option Ledger
run [] l = l
run (e ∷ es) l = run es (apply e l)

-- The unbounded history: every verification record, given the rejections counted before.
unfoldable pub attestation_log : ℕ → List Event → List Attestation
attestation_log n [] = []
attestation_log n (verified now r d m ∷ es) = verified_record now r d m ∷ attestation_log n es
attestation_log n (rejected now failure ∷ es) =
    rejected_record now failure (incr n) ∷ attestation_log (incr n) es
attestation_log n (request r ∷ es) = attestation_log n es

unfoldable pub request_log : List Event → List Request
request_log [] = []
request_log (request r ∷ es) = r ∷ request_log es
request_log (verified _ _ _ _ ∷ es) = request_log es
request_log (rejected _ _ ∷ es) = request_log es

-- How many events each counter counts, with no bound.
unfoldable pub count : (Event → Bool) → List Event → ℕ
count p [] = 0
count p (e ∷ es) = (if p e then 1 else 0) + count p es

abbrev pub counts_verified : Event → Bool
counts_verified (verified _ _ _ _) = true
counts_verified _ = false

abbrev pub counts_rejected : Event → Bool
counts_rejected (rejected _ _) = true
counts_rejected _ = false

abbrev pub counts_encrypted : Event → Bool
counts_encrypted (request r) = is_encrypted r
counts_encrypted _ = false

abbrev pub counts_failed : Event → Bool
counts_failed (request r) = if is_encrypted r then false else true
counts_failed _ = false

-- The ledger `l` shows the last 64 records and the last 256 requests of the two histories.
pub record Shows (records : List Attestation) (requests : List Request) (l : Ledger) : Type 0 where
  pub attestations : l.attestations ≡ last_n max_attestations records
  pub requests_are : l.requests ≡ last_n max_requests requests

abbrev pub ShowsLog : List Attestation → List Request → Option Ledger → Type 0
ShowsLog records requests none = ⊥
ShowsLog records requests (some l) = Shows records requests l

Shows-verified :
    {rec : List Attestation} {req : List Request} {l : Ledger} (now : Time) (r : Attestation)
    (d m : Bytes)
    → Shows rec req l
    → Shows (rec ++ verified_record now r d m ∷ []) req (add_verified now r d m l)
unfolding add_verified
Shows-verified {rec} now r d m s = record {
  attestations = rw s.attestations (append_capped-last_n rec _ max_attestations (omega arith));
  requests_are = s.requests_are;
}

Shows-rejected :
    {rec : List Attestation} {req : List Request} {l : Ledger} (now : Time) (failure : Bytes)
    → Shows rec req l
    → Shows
        (rec ++ rejected_record now failure (incr l.rejected_total) ∷ [])
        req
        (add_rejected now failure l)
unfolding add_rejected
Shows-rejected {rec} now failure s = record {
  attestations = rw s.attestations (append_capped-last_n rec _ max_attestations (omega arith));
  requests_are = s.requests_are;
}

Shows-request :
    {rec : List Attestation} {req : List Request} {l : Ledger} (r : Request)
    → Shows rec req l
    → Shows rec (req ++ r ∷ []) (add_request r l)
unfolding add_request
Shows-request {req = req} r s = record {
  attestations = s.attestations;
  requests_are = rw s.requests_are (append_capped-last_n req r max_requests (omega arith));
}

-- Any ledger that shows two histories shows, after more events, those histories prolonged.
pub run-Shows :
    (es : List Event) (rec : List Attestation) (req : List Request) (l : Ledger)
    → Shows rec req l
    → ShowsLog
        (rec ++ attestation_log l.rejected_total es)
        (req ++ request_log es)
        (run es (some l))
unfolding run attestation_log request_log record_verified record_rejected record_request
run-Shows [] rec req l s = simp append-nil s
run-Shows (verified now r d m ∷ es) rec req l s = rw append_assoc at (
    run-Shows es (rec ++ verified_record now r d m ∷ []) req (add_verified now r d m l)
      (Shows-verified now r d m s))
run-Shows (rejected now failure ∷ es) rec req l s = rw append_assoc at (
    run-Shows es (rec ++ rejected_record now failure (incr l.rejected_total) ∷ []) req
      (add_rejected now failure l) (Shows-rejected now failure s))
run-Shows (request r ∷ es) rec req l s =
    rw append_assoc at (run-Shows es rec (req ++ r ∷ []) (add_request r l) (Shows-request r s))

-- The four totals of `l` are counts of what happened, as a uint64 holds them.
pub record Totals (v r e f : ℕ) (l : Ledger) : Type 0 where
  pub verified_total : l.verified_total ≡ v % 2 ^ 64
  pub rejected_total : l.rejected_total ≡ r % 2 ^ 64
  pub encrypted_total : l.encrypted_total ≡ e % 2 ^ 64
  pub failed_total : l.failed_total ≡ f % 2 ^ 64

abbrev pub HasTotals : ℕ → ℕ → ℕ → ℕ → Option Ledger → Type 0
HasTotals v r e f none = ⊥
HasTotals v r e f (some l) = Totals v r e f l

abbrev one_if : Bool → ℕ
one_if b = if b then 1 else 0

Totals-request :
    {v r e f : ℕ} {l : Ledger} (q : Request)
    → Totals v r e f l
    → Totals v r
        (e + one_if (is_encrypted q))
        (f + one_if (counts_failed (request q)))
        (add_request q l)
unfolding add_request
Totals-request q t = ground arith

HasTotals-cast :
    (o : Option Ledger) (v r e f : ℕ) {v' r' e' f' : ℕ}
    → HasTotals v r e f o
    → v ≡ v'
    → r ≡ r'
    → e ≡ e'
    → f ≡ f'
    → HasTotals v' r' e' f' o
HasTotals-cast none v r e f h p q s t = h
HasTotals-cast (some l) v r e f h p q s t = omega arith

-- Each recorder raises its own total by one, modulo 2^64, and no other.
pub run-Totals :
    (es : List Event) (v r e f : ℕ) (l : Ledger)
    → Totals v r e f l
    → HasTotals
        (v + count counts_verified es)
        (r + count counts_rejected es)
        (e + count counts_encrypted es)
        (f + count counts_failed es)
        (run es (some l))
unfolding run count record_verified record_rejected record_request
run-Totals [] v r e f l t = omega arith
run-Totals (verified now a d m ∷ es) v r e f l t =
    HasTotals-cast (run es (some (add_verified now a d m l))) _ _ _ _
      (run-Totals es (v + 1) r e f (add_verified now a d m l) (unfold add_verified in omega arith))
      (omega arith) (omega arith) (omega arith) (omega arith)
run-Totals (rejected now why ∷ es) v r e f l t =
    HasTotals-cast (run es (some (add_rejected now why l))) _ _ _ _
      (run-Totals es v (r + 1) e f (add_rejected now why l) (unfold add_rejected in omega arith))
      (omega arith) (omega arith) (omega arith) (omega arith)
run-Totals (request q ∷ es) v r e f l t =
    HasTotals-cast (run es (some (add_request q l))) _ _ _ _
      (run-Totals es v r (e + one_if (is_encrypted q)) (f + one_if (counts_failed (request q)))
        (add_request q l) (Totals-request q t))
      (omega arith) (omega arith) (omega arith) (omega arith)

-- A new ledger, after any sequence of events, holds the last 64 verification records and the last
-- 256 requests, oldest first, and its totals count the events of each kind modulo 2^64.
pub run-new :
    (es : List Event)
    → ShowsLog (attestation_log 0 es) (request_log es) (run es (some new))
      × HasTotals
          (count counts_verified es)
          (count counts_rejected es)
          (count counts_encrypted es)
          (count counts_failed es)
          (run es (some new))
run-new es = (
  run-Shows es [] [] new (record { attestations = refl; requests_are = refl }),
  HasTotals-cast (run es (some new)) _ _ _ _ (run-Totals es 0 0 0 0 new (omega arith)) (omega arith)
      (omega arith) (omega arith) (omega arith),
)
