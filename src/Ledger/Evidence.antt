-- ===== src/Ledger/Evidence.antt =====
-- What the ledger shows: Snapshot's verdict and Document's lookup (internal/ledger/ledger.go).
use mathlib.Core.List.{reverse, reverse-append}
use dappnode_nexus_sdk.Prelude.{
  ℕ, List, [], ◌∷◌, ◌++◌, map, ◌≡◌, refl, ap, true, false, Option, none, some, ◌⊎◌, inl, inr,
  if◌then◌else◌, length, drop, ltb, arith, Bool, not, ◌&&◌, ◌≢◌, Bool-cases, All, is_empty,
}
use dappnode_nexus_sdk.Prelude.Bytes.{Bytes, bytes_eq, bytes_eq_refl, bytes_eq_iff}
use dappnode_nexus_sdk.Prelude.Time.{Time}
use dappnode_nexus_sdk.Ledger.{
  Attestation, Ledger, append_capped, outcome_verified, outcome_rejected, verified_record,
  add_verified, add_rejected, record_verified, record_rejected, snapshot, without_evidence,
  has_evidence, find_evidence, document,
}

-- The items that appendCapped keeps of those that were there.
abbrev kept {ℓ} : {A : Type ℓ} → List A → ℕ → List A
kept xs n = if ltb (length xs) n then xs else drop 1 xs

reverse-append_capped {ℓ} :
    {A : Type ℓ} (xs : List A) (x : A) (n : ℕ)
    → reverse (append_capped xs x n) ≡ x ∷ reverse (kept xs n)
unfolding append_capped
reverse-append_capped xs x n = elim (Bool-cases (ltb (length xs) n)) [
  | inl e ↦ rw e (reverse-append xs (x ∷ []))
  | inr e ↦ rw e (reverse-append (drop 1 xs) (x ∷ []))
]

-- The ledger's snapshot says "verified", and its current record is the new one without
-- the retained evidence; Document finds that evidence, verbatim, if the document is not empty.
pub record ShowsVerified (now : Time) (r : Attestation) (d m : Bytes) (l : Ledger) : Type 0 where
  pub status : (snapshot now l).status ≡ outcome_verified
  pub current : (snapshot now l).current ≡ some (without_evidence (verified_record now r d m))
  pub evidence : (is_empty d ≡ true) ⊎ (document r.id l ≡ some (d, m))

-- RecordVerified leads to a ledger whose snapshot says "verified", with the new record and none of
-- its evidence as the current one, and in which Document finds that evidence, verbatim, by the
-- record's identifier, if the document is not empty.
pub record_verified-ShowsVerified :
    (now : Time) (r : Attestation) (d m : Bytes) (l : Ledger)
    → (l' : Ledger) × (record_verified now r d m (some l) ≡ some l') × ShowsVerified now r d m l'
unfolding record_verified snapshot document bytes_eq
record_verified-ShowsVerified now r d m l = (
  add_verified now r d m l,
  refl,
  record {
    status = rw reverse-append_capped refl;
    current = rw reverse-append_capped refl;
    evidence = elim (Bool-cases (is_empty d)) [
      | inl e ↦ inl e
      | inr h ↦ inr (rw (reverse-append_capped, bytes_eq_refl r.id, h) refl)
    ];
  },
)

-- After RecordRejected the snapshot says "rejected" and has no current record.
pub record_rejected_lem :
    (now : Time) (failure : Bytes) (l : Ledger)
    → (l' : Ledger) × (record_rejected now failure (some l) ≡ some l')
      × ((snapshot now l').status ≡ outcome_rejected)
      × ((snapshot now l').current ≡ none)
unfolding record_rejected snapshot bytes_eq
record_rejected_lem now failure l =
    (add_rejected now failure l, refl, rw reverse-append_capped refl, rw reverse-append_capped refl)

-- The record has the identifier and a document that is not empty.
abbrev pub Holds : Bytes → Attestation → Type 0
Holds id a = (a.id ≡ id) × (a.document ≢ [])

lacks_document : (a e : Bool) → a ≡ true → (a && not e) ≡ false → e ≡ true
lacks_document a e h k = ground arith

has_both : (a e : Bool) → (a && not e) ≡ true → (a ≡ true) × (e ≡ false)
has_both a e h = ground arith

is_empty-true : (b : Bytes) → is_empty b ≡ true → b ≡ []
is_empty-true [] h = refl
is_empty-true (c ∷ b) h = absurd (cc)

has_evidence-Holds : (id : Bytes) (a : Attestation) → has_evidence id a ≡ true → Holds id a
has_evidence-Holds id a h = (
  (bytes_eq_iff a.id id).0 (has_both _ (is_empty a.document) h).0,
  λ e. absurd (cc ((has_both (bytes_eq a.id id) (is_empty a.document) h).1, ap is_empty e)),
)

Holds-has_evidence : (id : Bytes) (a : Attestation) → has_evidence id a ≡ false → ¬ Holds id a
Holds-has_evidence id a h (same, full) = absurd (
    full (
      is_empty-true a.document
        (lacks_document _ (is_empty a.document) ((bytes_eq_iff a.id id).1 same) h)))

-- `a` is the newest record of the list, read from the newest on, that holds evidence of `id`.
pub record Newest (id : Bytes) (a : Attestation) (records : List Attestation) : Type 0 where
  pub newer : List Attestation
  pub older : List Attestation
  pub splits : records ≡ newer ++ a ∷ older
  pub matches : Holds id a
  pub skipped : All (λ b. ¬ Holds id b) newer

abbrev pub FoundIn : Bytes → Option (Bytes × Bytes) → List Attestation → Type 0
FoundIn id none records = All (λ b. ¬ Holds id b) records
FoundIn id (some e) records =
    (a : Attestation) × Newest id a records × (e ≡ (a.document, a.manifest))

FoundIn-cons :
    (id : Bytes) (b : Attestation) (o : Option (Bytes × Bytes)) (records : List Attestation)
    → ¬ Holds id b
    → FoundIn id o records
    → FoundIn id o (b ∷ records)
FoundIn-cons id b none records h f = (h, f)
FoundIn-cons id b (some e) records h (a, n, p) = (
  a,
  record {
    newer = b ∷ n.newer;
    older = n.older;
    splits = ap (◌∷◌ b) n.splits;
    matches = n.matches;
    skipped = (h, n.skipped);
  },
  p,
)

find_evidence-FoundIn :
    (id : Bytes) (records : List Attestation) → FoundIn id (find_evidence id records) records
unfolding find_evidence
find_evidence-FoundIn id [] = tt
find_evidence-FoundIn id (a ∷ rest) = elim (Bool-cases (has_evidence id a)) [
  | inl h ↦ rw h (
    a,
    record {
      newer = [];
      older = rest;
      splits = refl;
      matches = has_evidence-Holds id a h;
      skipped = tt;
    },
    refl,
  )
  | inr h ↦
      rw h (FoundIn-cons id a _ rest (Holds-has_evidence id a h) (find_evidence-FoundIn id rest))
]

-- Document returns the evidence of the newest record that has the identifier and a document that
-- is not empty, and nothing exactly when no record has both.
pub document-FoundIn :
    (id : Bytes) (l : Ledger) → FoundIn id (document id l) (reverse l.attestations)
unfolding document
document-FoundIn id l = find_evidence-FoundIn id (reverse l.attestations)

abbrev pub HoldsNoEvidence : Attestation → Type 0
HoldsNoEvidence a = (a.document ≡ []) × (a.manifest ≡ [])

without_evidence-All :
    (records : List Attestation) → All HoldsNoEvidence (map without_evidence records)
without_evidence-All [] = tt
without_evidence-All (a ∷ rest) = ((refl, refl), without_evidence-All rest)

-- The polled view never holds a document or a manifest.
pub snapshot-HoldsNoEvidence :
    (now : Time) (l : Ledger) → All HoldsNoEvidence (snapshot now l).attestations
unfolding snapshot
snapshot-HoldsNoEvidence now l = without_evidence-All (reverse l.attestations)
