-- ===== src/Confidential.antt =====
-- internal/confidential/client.go: the session with an attested Gateway.
-- The EHBP library is a parameter (`Ehbp`). What the verifier returns is the argument `outcome`,
-- with an error's text in place of the error; the readings of the clock, of which the ledger makes
-- one of its own, are a `Clock`. A session
-- is a pointer, which invalidate compares: `serial` stands for the address, and `next` is the
-- first that is free.
pub mod Describe
pub mod Session
pub mod Guard
use dappnode_nexus_sdk.Prelude.{
  ℕ, ◌+◌, Bool, true, false, not, ◌&&◌, Option, none, some, List, [], ◌∷◌, ltb, ◌==◌, if◌then◌else◌,
  is_empty, take,
}
use dappnode_nexus_sdk.Prelude.Bytes.{Bytes, codes}
use dappnode_nexus_sdk.Prelude.Hex.{hex_encode}
use dappnode_nexus_sdk.Prelude.Result.{Result, ok, err}
use dappnode_nexus_sdk.Prelude.Time.{Time}
use dappnode_nexus_sdk.Attestation.Verifier.Types.{Evidence}
use dappnode_nexus_sdk.Ledger.{Ledger, record_verified, record_rejected}
use dappnode_nexus_sdk.Confidential.Describe.{describe_evidence}

pub record Clock : Type 0 where
  pub at_start : Time
  pub verified : Time
  pub described : Time
  pub in_ledger : Time

pub record Header : Type 0 where
  pub authorization : Option Bytes
  pub accept : Option Bytes
  pub user_agent : Bytes
  pub content_type : Bytes

-- The POST of Do; `replayable` is whether GetBody is set.
pub record Post : Type 0 where
  pub url : Bytes
  pub header : Header
  pub body : Bytes
  pub replayable : Bool

-- identity.FromPublicKeyBytes, NewTransportWithIdentity, the exchange over a transport with
-- IsKeyConfigError of its failure, and crypto/sha256.
pub record Ehbp (Identity Transport Response : Type 0) : Type 0 where
  pub from_public_key : Bytes → Result Bytes Identity
  pub new_transport : Identity → Result Bytes Transport
  pub valid_url : Bytes → Bool
  pub exchange : Transport → Post → Result Bool Response
  pub sha256 : Bytes → Bytes

pub record VerifiedSession (Transport : Type 0) : Type 0 where
  pub serial : ℕ
  pub transport : Transport
  pub expires_at : Time
  pub attestation_id : Bytes

pub record Client (Transport : Type 0) : Type 0 where
  pub endpoint : Bytes
  pub ledger : Option Ledger
  pub session : Option (VerifiedSession Transport)
  pub next : ℕ

pub data SessionError : Type 0 where
  empty_envelope no_validity bad_request : SessionError
  unverified unusable_key no_transport : Bytes → SessionError
  exchange_failed : SessionError

abbrev pub no_validity_text : Bytes
no_validity_text = codes "Gateway attestation has no remaining validity"

module _ {I T R : Type 0} (ehbp : Ehbp I T R) where
  -- ledger.FingerprintKey
  unfoldable pub fingerprint_key : Bytes → Bytes
  unfolding hex_encode
  fingerprint_key key = hex_encode (take 8 (ehbp.sha256 key))

  abbrev pub rejected :
      Client T → Time → Bytes → SessionError → Client T × Result SessionError (VerifiedSession T)
  rejected c now failure e = (record c { ledger = record_rejected now failure c.ledger }, err e)

  abbrev pub session_of : Client T → Evidence → T → VerifiedSession T
  session_of c ev t = record {
    serial = c.next;
    transport = t;
    expires_at = ev.expires_at;
    attestation_id = fingerprint_key ev.public_key;
  }

  unfoldable pub recorded : Clock → Evidence → Option Ledger → Option Ledger
  unfolding describe_evidence
  recorded k ev l =
      record_verified k.in_ledger (describe_evidence (fingerprint_key ev.public_key) ev k.described)
        ev.proof.document ev.proof.manifest l

  abbrev pub established :
      Client T → Clock → Evidence → T → Client T × Result SessionError (VerifiedSession T)
  established c k ev t = (
    record c {
      ledger = recorded k ev c.ledger;
      session = some (session_of c ev t);
      next = c.next + 1;
    },
    ok (session_of c ev t),
  )

  abbrev pub with_transport :
      Client T
      → Clock
      → Evidence
      → Result Bytes T
      → Client T × Result SessionError (VerifiedSession T)
  with_transport c k ev (ok t) = established c k ev t
  with_transport c k ev (err e) = rejected c k.in_ledger e (no_transport e)

  abbrev pub with_identity :
      Client T
      → Clock
      → Evidence
      → Result Bytes I
      → Client T × Result SessionError (VerifiedSession T)
  with_identity c k ev (ok i) = with_transport c k ev (ehbp.new_transport i)
  with_identity c k ev (err e) = rejected c k.in_ledger e (unusable_key e)

  abbrev pub after_verify :
      Client T
      → Clock
      → Result Bytes (Option Evidence)
      → Client T × Result SessionError (VerifiedSession T)
  after_verify c k (err e) = rejected c k.in_ledger e (unverified e)
  after_verify c k (ok none) = rejected c k.in_ledger no_validity_text no_validity
  after_verify c k (ok (some ev)) =
      if not (ltb k.verified ev.expires_at)
      then rejected c k.in_ledger no_validity_text no_validity
      else with_identity c k ev (ehbp.from_public_key ev.public_key)

  -- The cached session, if it has not expired.
  abbrev pub live : Time → Option (VerifiedSession T) → Option (VerifiedSession T)
  live now none = none
  live now (some s) = if ltb now s.expires_at then some s else none

  abbrev pub cached_or :
      Client T
      → Clock
      → Result Bytes (Option Evidence)
      → Option (VerifiedSession T)
      → Client T × Result SessionError (VerifiedSession T)
  cached_or c k outcome (some s) = (c, ok s)
  cached_or c k outcome none = after_verify c k outcome

  unfoldable pub session_for :
      Client T
      → Clock
      → Result Bytes (Option Evidence)
      → Client T × Result SessionError (VerifiedSession T)
  session_for c k outcome = cached_or c k outcome (live k.at_start c.session)

  -- Reverify: the cached session is dropped first, so that WarmUp must verify.
  unfoldable pub reverify :
      Client T
      → Clock
      → Result Bytes (Option Evidence)
      → Client T × Result SessionError (VerifiedSession T)
  reverify c k outcome = session_for (record c { session = none }) k outcome

  abbrev pub drop_same : ℕ → Option (VerifiedSession T) → Option (VerifiedSession T)
  drop_same serial none = none
  drop_same serial (some s) = if s.serial == serial then none else some s

  unfoldable pub invalidate : Client T → VerifiedSession T → Client T
  invalidate c s = record c { session = drop_same s.serial c.session }

  abbrev pub set_unless_empty : Bytes → Option Bytes
  set_unless_empty v = if is_empty v then none else some v

  abbrev pub post_of : Client T → Bytes → Bytes → Bytes → Bytes → Post
  post_of c authorization accept user_agent envelope = record {
    url = c.endpoint;
    header = record {
      authorization = set_unless_empty authorization;
      accept = set_unless_empty accept;
      user_agent = if is_empty user_agent then codes "nexus-proxy/1" else user_agent;
      content_type = codes "application/json";
    };
    body = envelope;
    replayable = false;
  }

  abbrev pub exchanged :
      Client T → VerifiedSession T → Result Bool R → Client T × Result SessionError R × Bytes
  exchanged c s (ok r) = (c, ok r, s.attestation_id)
  exchanged c s (err key_config) =
      (if key_config then invalidate c s else c, err exchange_failed, s.attestation_id)

  abbrev pub send :
      Post
      → Client T × Result SessionError (VerifiedSession T)
      → Client T × Result SessionError R × Bytes
  send p (c, err e) = (c, err e, [])
  send p (c, ok s) =
      if not (ehbp.valid_url c.endpoint)
      then (c, err bad_request, s.attestation_id)
      else exchanged c s (ehbp.exchange s.transport p)

  -- Do: the client after it, the response, and the identifier of the attested key.
  unfoldable pub do_post :
      Client T
      → Clock
      → Result Bytes (Option Evidence)
      → Bytes
      → Bytes
      → Bytes
      → Bytes
      → Client T × Result SessionError R × Bytes
  do_post c k outcome authorization accept user_agent envelope =
      if is_empty envelope
      then (c, err empty_envelope, [])
      else send (post_of c authorization accept user_agent envelope) (session_for c k outcome)
