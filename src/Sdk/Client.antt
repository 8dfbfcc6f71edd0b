-- ===== src/Sdk/Client.antt =====
-- client.go: New and the methods of Client that compose the other components. The Client is an
-- `Option`, for the methods accept a nil one; the ledger, which it shares with the confidential
-- client, stands in the latter. The network, the files and the codecs are in `Outside`.
pub mod Started
pub mod Attested
use dappnode_nexus_sdk.Prelude.{
  Bool, true, false, not, ◌||◌, Option, none, some, List, [], ◌∷◌, ◌++◌, if◌then◌else◌, is_empty,
}
use dappnode_nexus_sdk.Prelude.Bytes.{Bytes, codes}
use dappnode_nexus_sdk.Prelude.Result.{Result, ok, err, reject, ◌>>=◌}
use dappnode_nexus_sdk.Prelude.Space.{trim_space}
use dappnode_nexus_sdk.Prelude.Time.{Duration, Time, pos}
use dappnode_nexus_sdk.Jsonutil.{Reader, ReadLimitError, read_all_limited}
use dappnode_nexus_sdk.Http.{HttpRequest}
use dappnode_nexus_sdk.Url.{Url, validate_endpoint, filled}
use dappnode_nexus_sdk.Attestation.Policy.{
  Policy, PolicyError, parse_policy, validate, confidential_endpoint, max_policy_bytes,
}
use dappnode_nexus_sdk.Attestation.Verifier.Types.{Evidence}
use dappnode_nexus_sdk.Ledger
use dappnode_nexus_sdk.Ledger.{Ledger}
use dappnode_nexus_sdk.Ledger.Persist.{Codec, OpenError, open_ledger}
use dappnode_nexus_sdk.Confidential
use dappnode_nexus_sdk.Confidential.{
  Clock, Ehbp, VerifiedSession, SessionError, session_for, reverify,
}
use dappnode_nexus_sdk.Sdk.Config.{Config, ConfigError, TrustPolicyUpdates, validate_config}
use dappnode_nexus_sdk.Sdk.Surface
use dappnode_nexus_sdk.Sdk.Surface.{attestation_from_ledger, snapshot_from_ledger}

-- net/url; os.Open, os.MkdirAll and os.ReadFile; the JSON codecs; what the release source gives for
-- the updates; and what the verifier that New makes answers under a policy, with an error's text in
-- place of the error.
pub record Outside : Type 0 where
  pub parse_url : Bytes → Option Url
  pub url_text : Url → Bytes
  pub open_file : Bytes → Option Reader
  pub make_directory : Bytes → Bool
  pub read_file : Bytes → Option Bytes
  pub decode_policy : Bytes → Option Policy
  pub state_codec : Codec
  pub derive : TrustPolicyUpdates → Option Policy
  pub verify : Policy → Result Bytes (Option Evidence)

pub data PolicyFileError : Type 0 where
  path_required open_failed : PolicyFileError
  read_failed : ReadLimitError → PolicyFileError
  bad_policy : PolicyError → PolicyFileError

pub data NewError : Type 0 where
  bad_config : ConfigError → NewError
  no_release_policy : NewError
  static_policy_failed : PolicyFileError → NewError
  verifier_endpoint client_endpoint catalog_endpoint : NewError
  invalid_policy : PolicyError → NewError
  state_failed : OpenError → NewError
  attestation_failed : SessionError → NewError

-- `ui` and `catalog` are the routes that the handler has.
pub record Client (T : Type 0) : Type 0 where
  pub gateway_url : Bytes
  pub timeout : Duration
  pub confidential : Confidential.Client T
  pub ui : Bool
  pub catalog : Bool

abbrev pub map_err : {E F A : Type 0} → (E → F) → Result E A → Result F A
map_err f (ok a) = ok a
map_err f (err e) = err (f e)

module _ (outside : Outside) where
  abbrev parse_opened : Result ReadLimitError Bytes → Result PolicyFileError Policy
  parse_opened (ok b) = map_err bad_policy (parse_policy outside.decode_policy b)
  parse_opened (err e) = err (read_failed e)

  abbrev read_opened : Option Reader → Result PolicyFileError Policy
  read_opened none = err open_failed
  read_opened (some r) = parse_opened (read_all_limited r (pos max_policy_bytes))

  -- LoadPolicy
  unfoldable pub load_policy : Bytes → Result PolicyFileError Policy
  load_policy path =
      if is_empty path then err path_required else read_opened (outside.open_file path)

  -- loadStaticPolicy
  unfoldable pub load_static_policy : Config → Result NewError Policy
  load_static_policy c = map_err static_policy_failed (
      if filled c.trust_policy_json
      then map_err bad_policy (parse_policy outside.decode_policy c.trust_policy_json)
      else load_policy c.trust_policy_file)

  abbrev pub derived : Option Policy → Result NewError Policy
  derived none = err no_release_policy
  derived (some p) = ok p

  abbrev pub policy_of : Config → Option TrustPolicyUpdates → Result NewError Policy
  policy_of c none = load_static_policy c
  policy_of c (some u) = derived (outside.derive u)

  abbrev pub endpoint : NewError → Bytes → Bytes → Result NewError Url
  endpoint e origin path =
      map_err (λ _. e) (validate_endpoint outside.parse_url path (origin ++ path))

  -- NewVerifier: the policy that the verifier holds.
  unfoldable pub new_verifier : Bytes → Policy → Result NewError Policy
  new_verifier origin p = do
    _ ← endpoint verifier_endpoint origin (codes "/v1/attestation")
    map_err invalid_policy (validate p)

  abbrev pub ledger_for : Config → Result NewError Ledger
  ledger_for c =
      if filled c.state_file
      then map_err state_failed (
          open_ledger outside.state_codec c.state_file (outside.make_directory c.state_file)
            (outside.read_file c.state_file))
      else ok Ledger.new

  -- NewClient of confidential, and WithLedger.
  abbrev pub confidential_client : {T : Type 0} → Bytes → Ledger → Confidential.Client T
  confidential_client origin l = record {
    endpoint = origin ++ confidential_endpoint;
    ledger = some l;
    session = none;
    next = 0;
  }

  abbrev pub check_catalog : Config → Bytes → Result NewError Unit
  check_catalog c origin =
      if c.disable_model_catalog
      then ok tt
      else endpoint catalog_endpoint origin (codes "/v1/models") >>= λ _. ok tt

  -- After WarmUp.
  abbrev pub started :
      {T : Type 0}
      → Config
      → Bytes
      → Duration
      → Confidential.Client T × Result SessionError (VerifiedSession T)
      → Result NewError (Client T)
  started c origin timeout (k, err e) = err (attestation_failed e)
  started c origin timeout (k, ok s) = do
    _ ← check_catalog c origin
    ok (record {
      gateway_url = origin;
      timeout = timeout;
      confidential = k;
      ui = not c.disable_verification_ui;
      catalog = not c.disable_model_catalog;
    })

  -- New
  unfoldable pub new_client :
      {I T R : Type 0} → Ehbp I T R → Clock → Config → Result NewError (Client T)
  new_client ehbp k c =
      map_err bad_config (validate_config outside.parse_url outside.url_text c) >>= λ settings.
      policy_of c c.trust_policy_updates >>= λ given. new_verifier settings.0 given >>= λ policy.
      endpoint client_endpoint settings.0 confidential_endpoint >>= λ _. ledger_for c >>= λ l.
      started c settings.0 settings.1
        (session_for ehbp (confidential_client settings.0 l) k (outside.verify policy))
