-- ===== src/Sdk/Client/Started.antt =====
-- client.go: what a Client that New returns has behind it.
use dappnode_nexus_sdk.Prelude.{◌≡◌, refl, ap, sym, ◌∙◌}
use mathlib.Core.Path.{subst}
use dappnode_nexus_sdk.Prelude.Bytes.{Bytes}
use dappnode_nexus_sdk.Prelude.Result.{Result, ok, err, bind_then, ok-injective}
use dappnode_nexus_sdk.Prelude.Time.{Duration}
use dappnode_nexus_sdk.Attestation.Policy.{Policy, validate, confidential_endpoint}
use dappnode_nexus_sdk.Confidential
use dappnode_nexus_sdk.Confidential.{Clock, Ehbp, VerifiedSession, SessionError, session_for}
use dappnode_nexus_sdk.Confidential.Session.{
  Established, Reverified, Served-Reverified, session_for-Served,
}
use dappnode_nexus_sdk.Sdk.Config.{Config, validate_config}
use dappnode_nexus_sdk.Sdk.Client.{
  Outside, NewError, Client, map_err, policy_of, new_verifier, endpoint, ledger_for,
  confidential_client, check_catalog, started, new_client, bad_config, client_endpoint,
}

map_err-ok : {E F A : Type 0} (f : E → F) (r : Result E A) (a : A) → map_err f r ≡ ok a → r ≡ ok a
map_err-ok f (ok x) a h = ap ok (ok-injective h)
map_err-ok f (err e) a h = absurd (cc)

module _ {I T R : Type 0} (outside : Outside) (ehbp : Ehbp I T R) (k : Clock)
    (config : Config) where
  -- The Config is valid; the verifier holds a validated policy from its one source; under that
  -- policy the Gateway was verified, and the session in use belongs to the evidence, which the
  -- ledger shows.
  pub record IsStarted (c : Client T) : Type 0 where
    pub settings :
        validate_config outside.parse_url outside.url_text config ≡ ok (c.gateway_url, c.timeout)
    pub given : Policy
    pub from_source : policy_of outside config config.trust_policy_updates ≡ ok given
    pub policy : Policy
    pub validated : validate given ≡ ok policy
    pub session : VerifiedSession T
    pub verified : Established ehbp k (outside.verify policy) c.confidential session

  new_verifier-ok :
      (origin : Bytes) (p q : Policy) → new_verifier outside origin p ≡ ok q → validate p ≡ ok q
  unfolding new_verifier
  new_verifier-ok origin p q h =
      bind_then (endpoint outside NewError.verifier_endpoint origin _) _ h
        λ _ _ rest. map_err-ok NewError.invalid_policy (validate p) q rest

  started-confidential :
      (origin : Bytes) (timeout : Duration) (policy : Policy)
      (r : Confidential.Client T × Result SessionError (VerifiedSession T)) (c : Client T)
      → Reverified ehbp k (outside.verify policy) r
      → started outside config origin timeout r ≡ ok c
      → (s : VerifiedSession T) × Established ehbp k (outside.verify policy) c.confidential s
        × (c.gateway_url ≡ origin)
        × (c.timeout ≡ timeout)
  started-confidential origin timeout policy (cc', err e) c h e' = absurd (cc)
  started-confidential origin timeout policy (cc', ok s) c h e' =
      bind_then (check_catalog outside config origin) _ e' λ _ _ rest.
        let same = ok-injective rest in
        (
          s,
          subst (λ x. Established ehbp k (outside.verify policy) x.confidential s) same h,
          ap (λ x. x.gateway_url) (sym same),
          ap (λ x. x.timeout) (sym same),
        )

  pub new_client-IsStarted : (c : Client T) → new_client outside ehbp k config ≡ ok c → IsStarted c
  unfolding new_client
  new_client-IsStarted c h =
      bind_then (map_err bad_config (validate_config outside.parse_url outside.url_text config)) _ h
        λ settings valid h1.
          bind_then (policy_of outside config config.trust_policy_updates) _ h1 λ given source h2.
            bind_then (new_verifier outside settings.0 given) _ h2 λ policy held h3.
              bind_then (endpoint outside client_endpoint settings.0 confidential_endpoint) _ h3
                λ _ _ h4. bind_then (ledger_for outside config) _ h4 λ l _ h5.
                  let c0 : Confidential.Client T = confidential_client outside settings.0 l in
                  let r = session_for ehbp c0 k (outside.verify policy) in
                  let (s, verified, url, time) =
                    started-confidential settings.0 settings.1 policy r c
                      (Served-Reverified ehbp c0 k (outside.verify policy) l r.0 r.1 refl refl
                        (session_for-Served ehbp c0 k (outside.verify policy)))
                      h5 in
                  record {
                    settings =
                        map_err-ok bad_config _ settings valid
                        ∙ (ap (λ u. ok (u, settings.1)) (sym url)
                            ∙ ap (λ t. ok (c.gateway_url, t)) (sym time));
                    given = given;
                    from_source = source;
                    policy = policy;
                    validated = new_verifier-ok settings.0 given policy held;
                    session = s;
                    verified = verified;
                  }
