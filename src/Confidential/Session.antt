-- ===== src/Confidential/Session.antt =====
-- Which session a request is given, and what the ledger shows of it
-- (internal/confidential/client.go).
use dappnode_nexus_sdk.Prelude.{
  ◌<◌, ◌≡◌, refl, true, false, Option, none, some, [], ◌+◌, ◌≤◌, sym, ltb, ltb→lt, passed_ltb,
  is_empty, Bool-cases, ◌⊎◌, inl, inr,
}
use mathlib.Core.Path.{subst}
use dappnode_nexus_sdk.Prelude.Bytes.{Bytes}
use dappnode_nexus_sdk.Prelude.Time.{Time}
use dappnode_nexus_sdk.Prelude.Result.{Result, ok, err}
use dappnode_nexus_sdk.Attestation.Verifier.Types.{Evidence}
use dappnode_nexus_sdk.Ledger.{
  Ledger, record_verified, record_rejected, without_evidence, verified_record, snapshot, document,
  outcome_verified, outcome_rejected,
}
use dappnode_nexus_sdk.Ledger.Evidence.{record_verified-ShowsVerified, record_rejected_lem}
use dappnode_nexus_sdk.Confidential.Describe.{describe_evidence}
use dappnode_nexus_sdk.Confidential.{
  Clock, Ehbp, VerifiedSession, Client, SessionError, fingerprint_key, session_of, recorded,
  established, with_transport, with_identity, after_verify, live, no_validity_text, cached_or,
  session_for, reverify, post_of,
}

module _ {I T R : Type 0} (ehbp : Ehbp I T R) where
  -- The evidence `ev` of the run has validity left, and `t` encrypts to its key.
  pub record IsFresh (k : Clock) (outcome : Result Bytes (Option Evidence)) (ev : Evidence) (t : T)
      : Type 0 where
    pub verified : outcome ≡ ok (some ev)
    pub valid : k.verified < ev.expires_at
    pub identity : I
    pub key : ehbp.from_public_key ev.public_key ≡ ok identity
    pub transport : ehbp.new_transport identity ≡ ok t

  -- There is no session, or it has expired.
  abbrev pub IsOver : Time → Option (VerifiedSession T) → Type 0
  IsOver now none = Unit
  IsOver now (some s) = s.expires_at ≤ now

  -- Why there is no session: what the ledger is told, and the error.
  pub data Refusal (k : Clock) (outcome : Result Bytes (Option Evidence))
      : Bytes → SessionError → Type 0 where
    verify_failed : (x : Bytes) → outcome ≡ err x → Refusal k outcome x (SessionError.unverified x)
    nothing_verified :
        outcome ≡ ok none → Refusal k outcome no_validity_text SessionError.no_validity
    expired :
        (ev : Evidence)
        → outcome ≡ ok (some ev)
        → ev.expires_at ≤ k.verified
        → Refusal k outcome no_validity_text SessionError.no_validity
    bad_key :
        (ev : Evidence) (x : Bytes)
        → outcome ≡ ok (some ev)
        → k.verified < ev.expires_at
        → ehbp.from_public_key ev.public_key ≡ err x
        → Refusal k outcome x (SessionError.unusable_key x)
    bad_transport :
        (ev : Evidence) (i : I) (x : Bytes)
        → outcome ≡ ok (some ev)
        → k.verified < ev.expires_at
        → ehbp.from_public_key ev.public_key ≡ ok i
        → ehbp.new_transport i ≡ err x
        → Refusal k outcome x (SessionError.no_transport x)

  -- A session is the cached one before it expires, which changes nothing. Once that is over it is
  -- one that belongs to fresh evidence, which it replaces and which the ledger records; or there is
  -- none, for a reason which the ledger records as a rejection.
  pub data Served (c : Client T) (k : Clock) (outcome : Result Bytes (Option Evidence))
      : Client T → Result SessionError (VerifiedSession T) → Type 0 where
    cached :
        (s : VerifiedSession T)
        → c.session ≡ some s
        → k.at_start < s.expires_at
        → Served c k outcome c (ok s)
    fresh :
        (ev : Evidence) (t : T)
        → IsOver k.at_start c.session
        → IsFresh k outcome ev t
        → Served c k outcome
            (record c {
              ledger =
                  record_verified k.in_ledger
                    (describe_evidence (fingerprint_key ehbp ev.public_key) ev k.described)
                    ev.proof.document
                    ev.proof.manifest
                    c.ledger;
              session = some (record {
                serial = c.next;
                transport = t;
                expires_at = ev.expires_at;
                attestation_id = fingerprint_key ehbp ev.public_key;
              });
              next = c.next + 1;
            })
            (ok (record {
              serial = c.next;
              transport = t;
              expires_at = ev.expires_at;
              attestation_id = fingerprint_key ehbp ev.public_key;
            }))
    refused :
        (failure : Bytes) (e : SessionError)
        → IsOver k.at_start c.session
        → Refusal k outcome failure e
        → Served c k outcome
            (record c { ledger = record_rejected k.in_ledger failure c.ledger })
            (err e)

  -- What a pair of a client and a result is, under the same reading.
  abbrev pub ServedBy :
      Client T
      → Clock
      → Result Bytes (Option Evidence)
      → Client T × Result SessionError (VerifiedSession T)
      → Type 0
  ServedBy c k outcome r = Served c k outcome r.0 r.1

  module _ (c : Client T) (k : Clock) (outcome : Result Bytes (Option Evidence)) where
    with_transport-Served :
        (ev : Evidence) (i : I) (r : Result Bytes T)
        → IsOver k.at_start c.session
        → outcome ≡ ok (some ev)
        → k.verified < ev.expires_at
        → ehbp.from_public_key ev.public_key ≡ ok i
        → ehbp.new_transport i ≡ r
        → ServedBy c k outcome (with_transport ehbp c k ev r)
    unfolding recorded describe_evidence
    with_transport-Served ev i (ok t) over h v key e =
        fresh ev t over (record { verified = h; valid = v; identity = i; key = key; transport = e })
    with_transport-Served ev i (err x) over h v key e =
        refused x (SessionError.no_transport x) over (bad_transport ev i x h v key e)

    with_identity-Served :
        (ev : Evidence) (r : Result Bytes I)
        → IsOver k.at_start c.session
        → outcome ≡ ok (some ev)
        → k.verified < ev.expires_at
        → ehbp.from_public_key ev.public_key ≡ r
        → ServedBy c k outcome (with_identity ehbp c k ev r)
    with_identity-Served ev (ok i) over h v e =
        with_transport-Served ev i (ehbp.new_transport i) over h v e refl
    with_identity-Served ev (err x) over h v e =
        refused x (SessionError.unusable_key x) over (bad_key ev x h v e)

    after_verify-Served :
        (o : Result Bytes (Option Evidence))
        → IsOver k.at_start c.session
        → outcome ≡ o
        → ServedBy c k outcome (after_verify ehbp c k o)
    after_verify-Served (err x) over h =
        refused x (SessionError.unverified x) over (verify_failed x h)
    after_verify-Served (ok none) over h =
        refused no_validity_text SessionError.no_validity over (nothing_verified h)
    after_verify-Served (ok (some ev)) over h = elim (Bool-cases (ltb k.verified ev.expires_at)) [
      | inl e ↦
          rw e (
            with_identity-Served ev (ehbp.from_public_key ev.public_key) over h (ltb→lt _ _ e) refl)
      | inr e ↦ rw e (
          refused no_validity_text SessionError.no_validity over
            (expired ev h (passed_ltb k.verified ev.expires_at e)))
    ]

    cached_or-Served :
        (o : Option (VerifiedSession T))
        → c.session ≡ o
        → ServedBy c k outcome (cached_or ehbp c k outcome (live ehbp k.at_start o))
    cached_or-Served none h =
        after_verify-Served outcome (subst (IsOver k.at_start) (sym h) tt) refl
    cached_or-Served (some s) h = elim (Bool-cases (ltb k.at_start s.expires_at)) [
      | inl e ↦ rw e (cached s h (ltb→lt _ _ e))
      | inr e ↦ rw e (
          after_verify-Served outcome
            (subst (IsOver k.at_start) (sym h) (passed_ltb k.at_start s.expires_at e)) refl)
    ]

    -- sessionFor gives the cached session before it expires, and nothing changes. After that it gives
    -- one that belongs to fresh, valid evidence, which the ledger then records under the session's
    -- identifier; or it fails with the error of the step that failed, the ledger records that
    -- step's text as a rejection, and the session stays as it was.
    pub session_for-Served : ServedBy c k outcome (session_for ehbp c k outcome)
    unfolding session_for
    session_for-Served = cached_or-Served c.session refl

  -- The session belongs to fresh, valid evidence and is the client's; the ledger says "verified"
  -- and has that evidence under the session's identifier, if the document is not empty.
  pub record Established (k : Clock) (outcome : Result Bytes (Option Evidence)) (c : Client T)
      (s : VerifiedSession T) : Type 0 where
    pub evidence : Evidence
    pub is_fresh : IsFresh k outcome evidence s.transport
    pub expires : s.expires_at ≡ evidence.expires_at
    pub identifier : s.attestation_id ≡ fingerprint_key ehbp evidence.public_key
    pub kept : c.session ≡ some s
    pub ledger : Ledger
    pub in_use : c.ledger ≡ some ledger
    pub status : (snapshot k.in_ledger ledger).status ≡ outcome_verified
    pub current :
        (snapshot k.in_ledger ledger).current
        ≡ some (
            without_evidence (
              verified_record k.in_ledger
                (describe_evidence (fingerprint_key ehbp evidence.public_key) evidence k.described)
                evidence.proof.document
                evidence.proof.manifest))
    pub found :
        (is_empty evidence.proof.document ≡ true)
        ⊎ (document s.attestation_id ledger
            ≡ some (evidence.proof.document, evidence.proof.manifest))

  -- No session, no live session, and the ledger says "rejected".
  pub record Refused (k : Clock) (c : Client T) : Type 0 where
    pub ledger : Ledger
    pub in_use : c.ledger ≡ some ledger
    pub status : (snapshot k.in_ledger ledger).status ≡ outcome_rejected
    pub no_current : (snapshot k.in_ledger ledger).current ≡ none
    pub none_kept : c.session ≡ none

  abbrev pub Reverified :
      Clock
      → Result Bytes (Option Evidence)
      → Client T × Result SessionError (VerifiedSession T)
      → Type 0
  Reverified k outcome (c, ok s) = Established k outcome c s
  Reverified k outcome (c, err e) = Refused k c

  established-Established :
      (c : Client T) (k : Clock) (outcome : Result Bytes (Option Evidence)) (l : Ledger)
      (ev : Evidence) (t : T)
      → c.ledger ≡ some l
      → IsFresh k outcome ev t
      → Established k outcome (established ehbp c k ev t).0 (session_of ehbp c ev t)
  unfolding recorded describe_evidence
  established-Established c k outcome l ev t in_use f =
      let id : Bytes = fingerprint_key ehbp ev.public_key in
      let (l', r, shows) =
        record_verified-ShowsVerified k.in_ledger (describe_evidence id ev k.described)
          ev.proof.document ev.proof.manifest l in
      record {
        evidence = ev;
        is_fresh = f;
        expires = refl;
        identifier = refl;
        kept = refl;
        ledger = l';
        in_use = rw in_use r;
        status = shows.status;
        current = shows.current;
        found = shows.evidence;
      }

  Refused-Refused :
      (c : Client T) (k : Clock) (failure : Bytes) (l : Ledger)
      → c.ledger ≡ some l
      → c.session ≡ none
      → Refused k (record c { ledger = record_rejected k.in_ledger failure c.ledger })
  Refused-Refused c k failure l in_use n =
      let (l', r, status, current) = record_rejected_lem k.in_ledger failure l in
      record {
        ledger = l';
        in_use = rw in_use r;
        status = status;
        no_current = current;
        none_kept = n;
      }

  pub Served-Reverified :
      (c : Client T) (k : Clock) (outcome : Result Bytes (Option Evidence)) (l : Ledger)
      (c' : Client T) (r : Result SessionError (VerifiedSession T))
      → c.ledger ≡ some l
      → c.session ≡ none
      → Served c k outcome c' r
      → Reverified k outcome (c', r)
  unfolding recorded describe_evidence
  Served-Reverified c k outcome l c' r in_use n (cached s h live_yet) = absurd (cc)
  Served-Reverified c k outcome l c' r in_use n (fresh ev t over f) =
      established-Established c k outcome l ev t in_use f
  Served-Reverified c k outcome l c' r in_use n (refused failure e over why) =
      Refused-Refused c k failure l in_use n

  -- Reverify of a client that has a ledger never returns the cached session. The one it returns
  -- belongs to fresh, valid evidence; the ledger says "verified" and finds that evidence by the
  -- session's identifier (if the document is not empty). When it fails the client has no session
  -- left and the ledger says "rejected".
  pub reverify-Reverified :
      (c : Client T) (k : Clock) (outcome : Result Bytes (Option Evidence)) (l : Ledger)
      → c.ledger ≡ some l
      → Reverified k outcome (reverify ehbp c k outcome)
  unfolding reverify
  reverify-Reverified c k outcome l in_use =
      let c0 : Client T = record c { session = none } in
      Served-Reverified c0 k outcome l (session_for ehbp c0 k outcome).0
        (session_for ehbp c0 k outcome).1 in_use refl (session_for-Served c0 k outcome)

  module _ (c : Client T) (k : Clock) (outcome : Result Bytes (Option Evidence))
      (authorization accept user_agent envelope : Bytes) where
    -- What Do may come to. There is no response but over the transport of a session that sessionFor
    -- gave, and when the Gateway refuses the key of the session, the client drops it.
    pub data Exchange : Client T × Result SessionError R × Bytes → Type 0 where
      empty : is_empty envelope ≡ true → Exchange (c, err SessionError.empty_envelope, [])
      unserved :
          (c' : Client T) (e : SessionError)
          → Served c k outcome c' (err e)
          → Exchange (c', err e, [])
      unsent :
          (c' : Client T) (s : VerifiedSession T)
          → Served c k outcome c' (ok s)
          → Exchange (c', err SessionError.bad_request, s.attestation_id)
      answered :
          (c' : Client T) (s : VerifiedSession T) (r : R)
          → Served c k outcome c' (ok s)
          → ehbp.exchange s.transport (post_of ehbp c authorization accept user_agent envelope)
            ≡ ok r
          → Exchange (c', ok r, s.attestation_id)
      broken :
          (c' : Client T) (s : VerifiedSession T)
          → Served c k outcome c' (ok s)
          → ehbp.exchange s.transport (post_of ehbp c authorization accept user_agent envelope)
            ≡ err false
          → Exchange (c', err SessionError.exchange_failed, s.attestation_id)
      key_refused :
          (c' : Client T) (s : VerifiedSession T)
          → Served c k outcome c' (ok s)
          → ehbp.exchange s.transport (post_of ehbp c authorization accept user_agent envelope)
            ≡ err true
          → Exchange
              (record c' { session = none }, err SessionError.exchange_failed, s.attestation_id)
