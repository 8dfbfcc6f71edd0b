-- ===== src/Sdk/Client/Attested.antt =====
-- client.go, internal/confidential and internal/attestation together: New over the verifier.
use dappnode_nexus_sdk.Prelude.{
  ◌<◌, ◌≡◌, ◌∙◌, refl, sym, ap, true, false, Option, some, is_empty, lt→ltb,
}
use mathlib.Core.Option.{some-injective}
use mathlib.Core.Path.{subst}
use dappnode_nexus_sdk.Prelude.Bytes.{Bytes}
use dappnode_nexus_sdk.Prelude.Result.{Result, ok, err, ok-injective}
use dappnode_nexus_sdk.Prelude.Time.{Time}
use dappnode_nexus_sdk.Http.{HttpRequest, HttpResponse}
use dappnode_nexus_sdk.Attestation.Policy.{Policy, validate}
use dappnode_nexus_sdk.Attestation.Verifier.Types.{Deps, Evidence, Verifier, VerifyError}
use dappnode_nexus_sdk.Attestation.Verifier.Fetch.{verify, Verified, verify-Verified}
use dappnode_nexus_sdk.Confidential.{
  Clock, Ehbp, VerifiedSession, session_for, post_of, exchanged, do_post,
}
use dappnode_nexus_sdk.Confidential
use dappnode_nexus_sdk.Sdk.Config.{Config}
use dappnode_nexus_sdk.Sdk.Client.{
  Outside, Client, policy_of, new_client, load_static_policy, load_policy,
}
use dappnode_nexus_sdk.Sdk.Client.Started.{new_client-IsStarted}

-- The outcome of Verify as the confidential client reads it; `text` is the error's.
abbrev pub outcome_of :
    (VerifyError → Bytes) → Result VerifyError Evidence → Result Bytes (Option Evidence)
outcome_of text (ok ev) = ok (some ev)
outcome_of text (err e) = err (text e)

-- The verifier that New makes, with the policy that it was given.
abbrev pub holding : Verifier → Policy → Verifier
holding v p = record v { policy = p }

abbrev pub with_verifier :
    (VerifyError → Bytes)
    → Deps
    → (HttpRequest → Option HttpResponse)
    → Verifier
    → Option Bytes
    → Time
    → Outside
    → Outside
with_verifier text d send v random now outside = record outside {
  verify = λ p. outcome_of text (verify d send (holding v p) random now);
}

outcome_of-ok :
    (text : VerifyError → Bytes) (r : Result VerifyError Evidence) (ev : Evidence)
    → outcome_of text r ≡ ok (some ev)
    → r ≡ ok ev
outcome_of-ok text (ok x) ev h = ap ok (some-injective x ev (ok-injective h))
outcome_of-ok text (err e) ev h = absurd (cc)

module _ {I T R : Type 0} (text : VerifyError → Bytes) (d : Deps)
    (send : HttpRequest → Option HttpResponse) (v : Verifier) (random : Option Bytes) (now : Time)
    (outside : Outside) (ehbp : Ehbp I T R) (k : Clock) (config : Config) where
  -- The session encrypts to the key of evidence that attests one release of a validated policy, in
  -- a signed document, and it had not expired when it was made.
  pub record IsAttested (session : VerifiedSession T) : Type 0 where
    pub given : Policy
    pub from_source : policy_of outside config config.trust_policy_updates ≡ ok given
    pub policy : Policy
    pub validated : validate given ≡ ok policy
    pub evidence : Evidence
    pub verified : Verified d send (holding v policy) random evidence
    pub identity : I
    pub key : ehbp.from_public_key evidence.public_key ≡ ok identity
    pub transport : ehbp.new_transport identity ≡ ok session.transport
    pub live : k.verified < session.expires_at

  started-IsAttested :
      (c : Client T) (session : VerifiedSession T)
      → new_client (with_verifier text d send v random now outside) ehbp k config ≡ ok c
      → c.confidential.session ≡ some session
      → IsAttested session
  unfolding load_static_policy load_policy
  started-IsAttested c session h in_use =
      let o = with_verifier text d send v random now outside in
      let s = new_client-IsStarted o ehbp k config c h in
      let f = s.verified.is_fresh in
      let same = some-injective s.session session (sym s.verified.kept ∙ in_use) in
      subst IsAttested same (record {
        given = s.given;
        from_source = s.from_source;
        policy = s.policy;
        validated = s.validated;
        evidence = s.verified.evidence;
        verified =
            verify-Verified d send (holding v s.policy) random now s.verified.evidence s.given
              s.validated
              (outcome_of-ok text (verify d send (holding v s.policy) random now)
                s.verified.evidence f.verified);
        identity = f.identity;
        key = f.key;
        transport = f.transport;
        live = subst (λ t. k.verified < t) (sym s.verified.expires) f.valid;
      })

  -- A Do while the client has a live session is one exchange over that session's transport.
  do_post-live :
      (c : Confidential.Client T) (session : VerifiedSession T) (k' : Clock)
      (outcome : Result Bytes (Option Evidence)) (authorization accept user_agent envelope : Bytes)
      → c.session ≡ some session
      → k'.at_start < session.expires_at
      → ehbp.valid_url c.endpoint ≡ true
      → is_empty envelope ≡ false
      → do_post ehbp c k' outcome authorization accept user_agent envelope
        ≡ exchanged ehbp c session (
            ehbp.exchange session.transport
              (post_of ehbp c authorization accept user_agent envelope))
  unfolding do_post session_for
  do_post-live c session k' outcome authorization accept user_agent envelope in_use live url full =
      let early = lt→ltb k'.at_start session.expires_at live in rw (full, in_use, early, url) refl

  -- A Client that New returns, when its verification is that of the verifier which holds the
  -- validated policy (no refresh of the policy comes between): a request that is not empty, made
  -- before the session that New left has expired, is one exchange over the transport of that
  -- session. The transport encrypts to the key that was in the signed document of the response to
  -- the nonce that New drew, together with the measurements of one release of the policy.
  pub new_client-IsAttested :
      (c : Client T) (session : VerifiedSession T) (k' : Clock)
      (outcome : Result Bytes (Option Evidence)) (authorization accept user_agent envelope : Bytes)
      → new_client (with_verifier text d send v random now outside) ehbp k config ≡ ok c
      → c.confidential.session ≡ some session
      → k'.at_start < session.expires_at
      → ehbp.valid_url c.confidential.endpoint ≡ true
      → is_empty envelope ≡ false
      → IsAttested session
        × (do_post ehbp c.confidential k' outcome authorization accept user_agent envelope
            ≡ exchanged ehbp c.confidential session (
                ehbp.exchange session.transport
                  (post_of ehbp c.confidential authorization accept user_agent envelope)))
  new_client-IsAttested c session k' outcome authorization accept user_agent envelope h in_use live
        url full =
      (
        started-IsAttested c session h in_use,
        do_post-live c.confidential session k' outcome authorization accept user_agent envelope
            in_use live url full,
      )
