-- ===== src/Ledger/Restart.antt =====
-- A ledger that is flushed and opened again (internal/ledger/store.go).
use dappnode_nexus_sdk.Prelude.{
  suc, Bool, All, ◌≤◌, ◌<◌, true, false, Option, none, some, List, [], ◌∷◌, ◌++◌, map, ◌≡◌, refl,
  ap, ◌∙◌, arith, length, is_empty, last_n, last_n_all, append_assoc, append-nil, ltb, Bool-cases,
  Option-cases, inl, inr,
}
use dappnode_nexus_sdk.Prelude.Bytes.{Bytes}
use dappnode_nexus_sdk.Prelude.Result.{ok, err, Result-cases}
use dappnode_nexus_sdk.Prelude.Time.{Time}
use dappnode_nexus_sdk.AtomicFile.{
  File, Files, Faults, Outcome, replace_file, state_steps, IsAtomic, state_file-IsAtomic,
}
use dappnode_nexus_sdk.Ledger.{
  Check, Attestation, Request, Store, Ledger, new, max_attestations, max_requests, without_evidence,
}
use dappnode_nexus_sdk.Ledger.Bounds.{append_capped-last_n}
use dappnode_nexus_sdk.Ledger.Persist.{
  PersistedAttestation, PersistedState, Codec, persist, restore, snapshot_for_disk,
  load_attestations, load_requests, load_state, open_ledger, max_state_bytes, flush, Flushed,
  FlushError, flush_written,
}

-- json.Marshal writes a json.RawMessage in compact form; every other field comes back as it was.
abbrev pub reread : (Bytes → Bytes) → PersistedAttestation → PersistedAttestation
reread compact e = record {
  attestation = without_evidence e.attestation;
  document = e.document;
  manifest = compact e.manifest;
}

-- The texts that the state file holds as JSON strings; a document is held in base64, and a manifest
-- as it is.
abbrev check_texts : List Check → List Bytes
check_texts [] = []
check_texts (x ∷ xs) = x.name ∷ x.detail ∷ check_texts xs

abbrev entry_texts : Attestation → List Bytes
entry_texts a =
    a.id
    ∷ a.outcome
    ∷ a.failure
    ∷ a.module_id
    ∷ a.hpke_public_key
    ∷ a.nonce
    ∷ a.pcr0
    ∷ a.pcr1
    ∷ a.pcr2
    ∷ a.source_revision
    ∷ a.workload
    ∷ a.profile
    ∷ a.root_fingerprint
    ∷ check_texts a.checks

abbrev entries_texts : List PersistedAttestation → List Bytes
entries_texts [] = []
entries_texts (e ∷ es) = entry_texts e.attestation ++ entries_texts es

abbrev requests_texts : List Request → List Bytes
requests_texts [] = []
requests_texts (r ∷ rs) = r.id ∷ r.attestation_id ∷ r.outcome ∷ r.failure ∷ requests_texts rs

-- encoding/json writes other bytes for what is not UTF-8; `utf8` is utf8.Valid.
abbrev pub IsText : (Bytes → Bool) → PersistedState → Type 0
IsText utf8 s = All (λ t. utf8 t ≡ true) (entries_texts s.attestations ++ requests_texts s.requests)

-- What the state file relies on of encoding/json.
pub record IsJson (utf8 : Bytes → Bool) (compact : Bytes → Bytes) (c : Codec) : Type 0 where
  pub decodes :
      (s : PersistedState) (b : Bytes)
      → IsText utf8 s
      → c.marshal s ≡ some b
      → c.unmarshal b ≡ some (record s { attestations = map (reread compact) s.attestations })
  pub nonempty : (s : PersistedState) (b : Bytes) → c.marshal s ≡ some b → is_empty b ≡ false

-- A record as it comes back from disk.
abbrev pub recompacted : (Bytes → Bytes) → Attestation → Attestation
recompacted compact a = record a { manifest = compact a.manifest }

load_attestations-last_n :
    (es : List PersistedAttestation) (past : List Attestation)
    → load_attestations (last_n max_attestations past) es
      ≡ last_n max_attestations (past ++ map restore es)
unfolding load_attestations
load_attestations-last_n [] past = rw append-nil refl
load_attestations-last_n (e ∷ es) past =
    rw (append_capped-last_n past (restore e) max_attestations (omega arith)) (
      load_attestations-last_n es (past ++ restore e ∷ [])
      ∙ ap (last_n max_attestations) (append_assoc past (restore e ∷ []) (map restore es)))

load_requests-last_n :
    (rs : List Request) (past : List Request)
    → load_requests (last_n max_requests past) rs ≡ last_n max_requests (past ++ rs)
unfolding load_requests
load_requests-last_n [] past = rw append-nil refl
load_requests-last_n (r ∷ rs) past = rw (append_capped-last_n past r max_requests (omega arith)) (
    load_requests-last_n rs (past ++ r ∷ [])
    ∙ ap (last_n max_requests) (append_assoc past (r ∷ []) rs))

map-restore :
    (compact : Bytes → Bytes) (xs : List Attestation)
    → map restore (map (reread compact) (map persist xs)) ≡ map (recompacted compact) xs
map-restore compact [] = refl
map-restore compact (a ∷ xs) = ap (◌∷◌ (recompacted compact a)) (map-restore compact xs)

length-recompacted :
    (compact : Bytes → Bytes) (xs : List Attestation)
    → length (map (recompacted compact) xs) ≡ length xs
length-recompacted compact [] = refl
length-recompacted compact (a ∷ xs) = ap suc (length-recompacted compact xs)

-- The ledger that a restart is to give.
abbrev pub restarted : (Bytes → Bytes) → Bytes → Ledger → Ledger
restarted compact path l = record l {
  attestations = map (recompacted compact) l.attestations;
  store = some (record { path = path; dirty = false });
}

module _ (utf8 : Bytes → Bool) (compact : Bytes → Bytes) (c : Codec) (json : IsJson utf8 compact c)
    (now : Time) (l : Ledger) (few : length l.attestations ≤ max_attestations)
    (few_requests : length l.requests ≤ max_requests) (b : Bytes)
    (texts : IsText utf8 (snapshot_for_disk now l))
    (encoded : c.marshal (snapshot_for_disk now l) ≡ some b) where
  load_attestations_all :
      load_attestations [] (map (reread compact) (map persist l.attestations))
      ≡ map (recompacted compact) l.attestations
  load_attestations_all =
      load_attestations-last_n (map (reread compact) (map persist l.attestations)) []
      ∙ ap (last_n max_attestations) (map-restore compact l.attestations)
      ∙ last_n_all max_attestations _ (omega (arith, length-recompacted compact l.attestations))

  load_requests_all : load_requests [] l.requests ≡ l.requests
  load_requests_all =
      load_requests-last_n l.requests [] ∙ last_n_all max_requests l.requests few_requests

  -- Opening a file that holds an encoded ledger of at most 32 MiB gives that ledger back.
  open-marshal :
      (path : Bytes)
      → is_empty path ≡ false
      → length b ≤ max_state_bytes
      → open_ledger c path true (some b) ≡ ok (restarted compact path l)
  unfolding open_ledger load_state snapshot_for_disk
  open-marshal path p fits =
      let small : ltb max_state_bytes (length b) ≡ false = ground arith in
      rw (p, json.nonempty _ _ encoded, small, json.decodes _ _ texts encoded)
        (ap ok (λ i. record (restarted compact path l) {
          attestations = load_attestations_all i;
          requests = load_requests_all i;
        }))

-- os.ReadFile(path)
abbrev pub read_file : Files → Option Bytes
read_file f = elim f.target [ none ↦ none | some t ↦ some t.contents ]

read_file-some : (f : Files) (t : File) → f.target ≡ some t → read_file f ≡ some t.contents
read_file-some f t h = rw h refl

-- The ledger that Flush encodes and writes: its mark is gone.
abbrev pub unmarked : Ledger → Store → Ledger
unmarked l s = record l { store = some (record s { dirty = false }) }

-- A marked ledger that encodes is written.
flush-marked :
    (c : Codec) (x : Faults) (now : Time) (l : Ledger) (f : Files) (s : Store) (b : Bytes)
    → l.store ≡ some s
    → s.dirty ≡ true
    → c.marshal (snapshot_for_disk now l) ≡ some b
    → flush c x now l f ≡ flush_written (unmarked l s) (replace_file x (state_steps b) f)
unfolding flush
flush-marked c x now l f s b store dirty encoded = simp (store, dirty, encoded)

written-ok : (l : Ledger) (o : Outcome) → (flush_written l o).result ≡ ok tt → o.result ≡ ok tt
written-ok l o h = ground arith

written-files : (l : Ledger) (o : Outcome) → (flush_written l o).files ≡ o.files
written-files l o = ground arith

-- A flush that succeeds has put the encoding in the file.
flush-eq_ok :
    (c : Codec) (x : Faults) (now : Time) (l : Ledger) (f : Files) (s : Store) (b : Bytes)
    → l.store ≡ some s
    → s.dirty ≡ true
    → c.marshal (snapshot_for_disk now l) ≡ some b
    → (flush c x now l f).result ≡ ok tt
    → read_file (flush c x now l f).files ≡ some b
flush-eq_ok c x now l f s b store dirty encoded done =
    let o = replace_file x (state_steps b) f in
    let e = flush-marked c x now l f s b store dirty encoded in
    let written = written-ok (unmarked l s) o (rw e at done) in
    rw (e, written-files (unmarked l s) o)
      (read_file-some o.files _ (rw written at (state_file-IsAtomic x b f).on_end))

-- A flush that succeeds, then a restart: the ledger opened on the file is the flushed one, with
-- every manifest in compact form, if its texts are UTF-8 and the encoding is at most 32 MiB.
pub open-flush :
    (utf8 : Bytes → Bool) (compact : Bytes → Bytes) (c : Codec) (x : Faults) (now : Time)
    (l : Ledger) (f : Files) (s : Store) (b : Bytes)
    → IsJson utf8 compact c
    → IsText utf8 (snapshot_for_disk now l)
    → length l.attestations ≤ max_attestations
    → length l.requests ≤ max_requests
    → l.store ≡ some s
    → s.dirty ≡ true
    → is_empty s.path ≡ false
    → c.marshal (snapshot_for_disk now l) ≡ some b
    → length b ≤ max_state_bytes
    → (flush c x now l f).result ≡ ok tt
    → open_ledger c s.path true (read_file (flush c x now l f).files)
      ≡ ok (restarted compact s.path l)
open-flush utf8 compact c x now l f s b json texts few few_requests store dirty named encoded fits
      done =
    rw (flush-eq_ok c x now l f s b store dirty encoded done)
      (open-marshal utf8 compact c json now l few few_requests b texts encoded s.path named fits)

-- A flush that succeeds with an encoding of more than 32 MiB, then a restart: the history is gone,
-- and no error says so.
pub open-flush_too_large :
    (c : Codec) (x : Faults) (now : Time) (l : Ledger) (f : Files) (s : Store) (b : Bytes)
    → l.store ≡ some s
    → s.dirty ≡ true
    → is_empty s.path ≡ false
    → c.marshal (snapshot_for_disk now l) ≡ some b
    → max_state_bytes < length b
    → (flush c x now l f).result ≡ ok tt
    → open_ledger c s.path true (read_file (flush c x now l f).files)
      ≡ ok (record new { store = some (record { path = s.path; dirty = false }) })
unfolding open_ledger
open-flush_too_large c x now l f s b store dirty named encoded big done =
    let large : ltb max_state_bytes (length b) ≡ true = ground arith in
    let nonempty : is_empty b ≡ false = ground arith in
    rw (flush-eq_ok c x now l f s b store dirty encoded done, named, nonempty, large) refl

-- A flush that fails leaves the file as it was and the ledger marked, so the next one tries again.
pub record FailsSafely (f : Files) (o : Flushed) : Type 0 where
  pub untouched : o.files.target ≡ f.target
  pub marked : (s : Store) × (o.ledger.store ≡ some s) × (s.dirty ≡ true)

written-err :
    (f : Files) (t : File) (l : Ledger) (s : Store) (o : Outcome) {e : FlushError}
    → IsAtomic f t o
    → (flush_written (unmarked l s) o).result ≡ err e
    → FailsSafely f (flush_written (unmarked l s) o)
written-err f t l s o atomic h = elim (Result-cases o.result) [
  | inl (a, e) ↦ absurd (ground arith)
  | inr (why, e) ↦ record {
    untouched =
        ap (λ (g : Files). g.target) (written-files (unmarked l s) o) ∙ (rw e at atomic.on_end);
    marked = rw e (record s { dirty = true }, refl, refl);
  }
]

-- A flush that fails, at the encoding or at any system call, leaves the file as it was and the
-- ledger marked, so that the next flush tries again.
pub flush-FailsSafely :
    (c : Codec) (x : Faults) (now : Time) (l : Ledger) (f : Files) {e : FlushError}
    → (flush c x now l f).result ≡ err e
    → FailsSafely f (flush c x now l f)
unfolding flush
flush-FailsSafely c x now l f h = elim (Option-cases l.store) [
  | inl e ↦ absurd (ground arith)
  | inr (s, e) ↦ elim (Bool-cases s.dirty) [
    | inr clean ↦ absurd (ground arith)
    | inl dirty ↦ elim (Option-cases (c.marshal (snapshot_for_disk now l))) [
      | inl bad ↦
          simp (e, dirty, bad)
            (record { untouched = refl; marked = (record s { dirty = true }, refl, refl) })
      | inr (b, good) ↦
          simp (e, dirty, good)
            (written-err f _ l s (replace_file x (state_steps b) f) (state_file-IsAtomic x b f)
              (simp (e, dirty, good) at h))
    ]
  ]
]
