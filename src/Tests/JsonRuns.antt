-- ===== src/Tests/JsonRuns.antt =====
-- An encoding of ledgers with one record, in which a state file can be written and read.
use dappnode_nexus_sdk.Prelude.{
  ℕ, ◌≡◌, ◌∙◌, refl, ap, sym, Bool, true, Option, some, none, List, [], ◌∷◌, ◌++◌, map, length,
  take, drop, is_empty, false, ltb, ◌==◌, if◌then◌else◌, ◌&&◌,
}
use mathlib.Core.Option.{some-injective}
use dappnode_nexus_sdk.Prelude.Bytes.{Bytes, codes}
use dappnode_nexus_sdk.Ledger.{Check, Request, Ledger, no_attestation, new, outcome_verified}
use dappnode_nexus_sdk.Ledger.Persist.{
  PersistedAttestation, PersistedState, Codec, snapshot_for_disk,
}
use dappnode_nexus_sdk.Ledger.Restart.{IsText, IsJson, reread}

-- A text, with its length before it.
abbrev text : Bytes → Bytes → Bytes
text t rest = length t ∷ (t ++ rest)

take-length : (t rest : Bytes) → take (length t) (t ++ rest) ≡ t
take-length [] rest = refl
take-length (c ∷ t) rest = ap (◌∷◌ c) (take-length t rest)

drop-length : (t rest : Bytes) → drop (length t) (t ++ rest) ≡ rest
drop-length [] rest = refl
drop-length (c ∷ t) rest = drop-length t rest

module _ {A : Type 0} where
  unfoldable read_text : (Bytes → Bytes → Option A) → Bytes → Option A
  read_text next [] = none
  read_text next (n ∷ rest) = next (take n rest) (drop n rest)

  abbrev read_number : (ℕ → Bytes → Option A) → Bytes → Option A
  read_number next [] = none
  read_number next (n ∷ rest) = next n rest

  read_text-text :
      (next : Bytes → Bytes → Option A) (t rest : Bytes)
      → read_text next (text t rest) ≡ next t rest
  unfolding read_text
  read_text-text next t rest = λ i. next (take-length t rest i) (drop-length t rest i)

-- A manifest without its spaces.
unfoldable pub drop_spaces : Bytes → Bytes
drop_spaces [] = []
drop_spaces (c ∷ cs) = if c == b' ' then drop_spaces cs else c ∷ drop_spaces cs

unfoldable pub ascii : Bytes → Bool
ascii [] = true
ascii (c ∷ cs) = ltb c 128 && ascii cs

abbrev encode_entry : PersistedAttestation → Bytes
encode_entry e =
    let a = e.attestation in
    a.verified_at
    ∷ a.attested_at
    ∷ a.expires_at
    ∷ a.document_bytes
    ∷ text a.id (
        text a.outcome (
          text a.failure (
            text a.module_id (
              text a.hpke_public_key (
                text a.nonce (
                  text a.pcr0 (
                    text a.pcr1 (
                      text a.pcr2 (
                        text a.source_revision (
                          text a.workload (
                            text a.profile (
                              text a.root_fingerprint
                                (text e.document (text (drop_spaces e.manifest) []))))))))))))))

abbrev encode_checked : PersistedState → PersistedAttestation → List Check → Option Bytes
encode_checked s e [] = some (
    s.schema_version
    ∷ s.written_at
    ∷ s.verified_total
    ∷ s.rejected_total
    ∷ s.encrypted_total
    ∷ s.failed_total
    ∷ encode_entry e)
encode_checked s e (x ∷ xs) = none

unfoldable pub encode : PersistedState → List PersistedAttestation → List Request → Option Bytes
unfolding drop_spaces
encode s (e ∷ []) [] = encode_checked s e e.attestation.checks
encode s _ _ = none

abbrev decode_entry : (PersistedAttestation → Option PersistedState) → Bytes → Option PersistedState
decode_entry next (verified_at ∷ attested_at ∷ expires_at ∷ document_bytes ∷ b) =
    read_text
      (λ id. read_text (λ outcome. read_text (λ failure. read_text (λ module_id.
        read_text (λ hpke_public_key. read_text (λ nonce. read_text (λ pcr0. read_text (λ pcr1.
          read_text (λ pcr2. read_text (λ source_revision. read_text (λ workload.
            read_text (λ profile. read_text (λ root_fingerprint. read_text (λ document.
              read_text (λ manifest rest. next (record {
                attestation = record {
                  id = id;
                  outcome = outcome;
                  verified_at = verified_at;
                  failure = failure;
                  attested_at = attested_at;
                  expires_at = expires_at;
                  module_id = module_id;
                  hpke_public_key = hpke_public_key;
                  nonce = nonce;
                  pcr0 = pcr0;
                  pcr1 = pcr1;
                  pcr2 = pcr2;
                  source_revision = source_revision;
                  workload = workload;
                  profile = profile;
                  root_fingerprint = root_fingerprint;
                  checks = [];
                  document_bytes = document_bytes;
                  document = [];
                  manifest = [];
                };
                document = document;
                manifest = manifest;
              }))))))))))))))))
      b
decode_entry next _ = none

unfoldable pub decode : Bytes → Option PersistedState
unfolding read_text
decode
      (schema_version ∷ written_at ∷ verified_total ∷ rejected_total ∷ encrypted_total
        ∷ failed_total ∷ b) =
    decode_entry
      (λ e. some (record {
        schema_version = schema_version;
        written_at = written_at;
        verified_total = verified_total;
        rejected_total = rejected_total;
        encrypted_total = encrypted_total;
        failed_total = failed_total;
        attestations = e ∷ [];
        requests = [];
      }))
      b
decode _ = none

abbrev pub one_codec : Codec
one_codec = record { marshal = λ s. encode s s.attestations s.requests; unmarshal = decode }

decode_checked :
    (s : PersistedState) (e : PersistedAttestation) (xs : List Check) (b : Bytes)
    → e.attestation.checks ≡ xs
    → encode_checked s e xs ≡ some b
    → (decode b ≡ some (record s { attestations = reread drop_spaces e ∷ []; requests = [] }))
      × (is_empty b ≡ false)
unfolding decode
decode_checked s e (x ∷ xs) b none_left h = absurd (cc)
decode_checked s e [] b none_left h =
    let same = sym (some-injective _ b h) in
    (
      ap decode same
          ∙ (simp read_text-text refl
              ∙ ap
                  (λ xs. some (record s {
                    attestations =
                        record (reread drop_spaces e) {
                          attestation = record (reread drop_spaces e).attestation { checks = xs };
                        }
                        ∷ [];
                    requests = [];
                  }))
                  (sym none_left)),
      ap is_empty same,
    )

decode-encode :
    (s : PersistedState) (es : List PersistedAttestation) (rs : List Request) (b : Bytes)
    → encode s es rs ≡ some b
    → (decode b ≡ some (record s { attestations = map (reread drop_spaces) es; requests = rs }))
      × (is_empty b ≡ false)
unfolding encode
decode-encode s (e ∷ []) [] b h = decode_checked s e e.attestation.checks b refl h
decode-encode s [] rs b h = absurd (cc)
decode-encode s (e ∷ f ∷ es) rs b h = absurd (cc)
decode-encode s (e ∷ []) (r ∷ rs) b h = absurd (cc)

pub one_codec-IsJson : IsJson ascii drop_spaces one_codec
one_codec-IsJson = record {
  decodes = λ s b t h. (decode-encode s s.attestations s.requests b h).0;
  nonempty = λ s b h. (decode-encode s s.attestations s.requests b h).1;
}

-- A ledger with a verification whose manifest has white space in it.
abbrev pub counted : Ledger
counted = record new {
  verified_total = 3;
  failed_total = 2;
  attestations =
      record no_attestation {
        id = codes "key-1";
        outcome = outcome_verified;
        verified_at = 5;
        document = codes "signed";
        manifest = codes "{ \"a\": 1 }";
      }
      ∷ [];
  store = some (record { path = codes "state.json"; dirty = true });
}

-- The eleven texts that are empty.
abbrev zeros_before : Bytes → Bytes
zeros_before b = 0 ∷ 0 ∷ 0 ∷ 0 ∷ 0 ∷ 0 ∷ 0 ∷ 0 ∷ 0 ∷ 0 ∷ 0 ∷ b

abbrev pub counted_bytes : Bytes
counted_bytes =
    1
    ∷ 7
    ∷ 3
    ∷ 0
    ∷ 0
    ∷ 2
    ∷ 5
    ∷ 0
    ∷ 0
    ∷ 0
    ∷ text (codes "key-1")
        (text outcome_verified (zeros_before (text (codes "signed") (text (codes "{\"a\":1}") []))))

pub encoded : one_codec.marshal (snapshot_for_disk 7 counted) ≡ some counted_bytes
unfolding encode snapshot_for_disk drop_spaces
encoded = refl

pub counted_texts : IsText ascii (snapshot_for_disk 7 counted)
unfolding ascii snapshot_for_disk
counted_texts = (
  refl,
  (
    refl,
    (refl, (refl, (refl, (refl, (refl, (refl, (refl, (refl, (refl, (refl, (refl, tt))))))))))),
  ),
)
