-- ===== src/Command.antt =====
-- cmd/nexus-proxy/main.go: the command. What the flag package makes of the arguments is the record
-- `Flags`, and net, net/url and strconv are parameters.
pub mod Accepted
pub mod Listen
pub mod Exit
use dappnode_nexus_sdk.Prelude.{
  ℕ, Bool, true, false, not, ◌&&◌, ◌||◌, Option, none, some, List, [], ◌∷◌, ltb, ◌==◌,
  if◌then◌else◌, is_empty,
}
use dappnode_nexus_sdk.Prelude.Bytes.{Bytes, codes, bytes_eq}
use dappnode_nexus_sdk.Prelude.Result.{Result, ok, err, reject, ◌>>=◌}
use dappnode_nexus_sdk.Prelude.Time.{Duration, ℤ, pos, negsuc}
use dappnode_nexus_sdk.Url.{Url, OriginError, normalize_origin}
use dappnode_nexus_sdk.Sdk.Config.{Config, TrustPolicyUpdates, is_positive, is_set}

-- What flags.Parse leaves; `rest` are the positional arguments.
pub record Flags : Type 0 where
  pub gateway_url : Bytes
  pub trust_policy : Bytes
  pub listen : Bytes
  pub listen_scope : Bytes
  pub attestation_timeout : Duration
  pub verification_ui : Bool
  pub model_catalog : Bool
  pub state_file : Bytes
  pub policy_updates : Bool
  pub policy_cache_file : Bytes
  pub policy_refresh : Duration
  pub rest : List Bytes

pub record CommandConfig : Type 0 where
  pub gateway_origin : Bytes
  pub trust_policy_path : Bytes
  pub listen_address : Bytes
  pub listen_scope : Bytes
  pub attestation_timeout : Duration
  pub verification_ui : Bool
  pub model_catalog : Bool
  pub state_file : Bytes
  pub policy_updates : Bool
  pub policy_cache_file : Bytes
  pub policy_refresh : Duration

pub data ListenError : Type 0 where
  bad_address not_numeric not_loopback not_unspecified bad_scope bad_port : ListenError

pub data FlagError : Type 0 where
  help : FlagError
  parse_failed : Bytes → FlagError
  positional : FlagError
  bad_gateway : OriginError → FlagError
  not_one_source bad_refresh bad_timeout : FlagError
  bad_listen : ListenError → FlagError

-- net.SplitHostPort, net.ParseIP with IsLoopback and IsUnspecified, and strconv.Atoi.
pub record Net (Ip : Type 0) : Type 0 where
  pub split_host_port : Bytes → Option (Bytes × Bytes)
  pub parse_ip : Bytes → Option Ip
  pub is_loopback : Ip → Bool
  pub is_unspecified : Ip → Bool
  pub atoi : Bytes → Option ℤ

abbrev pub loopback : Bytes
loopback = codes "loopback"

abbrev pub dappnode : Bytes
dappnode = codes "dappnode"

-- parsedPort < 1 || parsedPort > 65535
abbrev pub bad_port_number : ℤ → Bool
bad_port_number (pos n) = ltb n 1 || ltb 65535 n
bad_port_number (negsuc n) = true

abbrev pub check_port : Option ℤ → Result ListenError Unit
check_port none = err bad_port
check_port (some p) = reject (bad_port_number p) bad_port (ok tt)

-- validateGatewayOrigin, whose rules are those of the SDK.
abbrev pub as_gateway : Result OriginError Bytes → Result FlagError Bytes
as_gateway (ok o) = ok o
as_gateway (err e) = err (bad_gateway e)

abbrev pub as_listen : Result ListenError Unit → Result FlagError Unit
as_listen (ok u) = ok u
as_listen (err e) = err (bad_listen e)

-- a == b
abbrev pub same_bool : Bool → Bool → Bool
same_bool true b = b
same_bool false b = not b

abbrev pub config_of : Bytes → Flags → CommandConfig
config_of origin f = record {
  gateway_origin = origin;
  trust_policy_path = f.trust_policy;
  listen_address = f.listen;
  listen_scope = f.listen_scope;
  attestation_timeout = f.attestation_timeout;
  verification_ui = f.verification_ui;
  model_catalog = f.model_catalog;
  state_file = f.state_file;
  policy_updates = f.policy_updates;
  policy_cache_file = f.policy_cache_file;
  policy_refresh = f.policy_refresh;
}

module _ {Ip : Type 0} (net : Net Ip) where
  abbrev pub check_scope : Bytes → Ip → Result ListenError Unit → Result ListenError Unit
  check_scope scope ip rest =
      if bytes_eq scope loopback
      then reject (not (net.is_loopback ip)) not_loopback rest
      else if bytes_eq scope dappnode
      then reject (not (net.is_unspecified ip)) not_unspecified rest
      else err bad_scope

  abbrev pub check_ip : Bytes → Bytes → Option Ip → Result ListenError Unit
  check_ip scope port none = err not_numeric
  check_ip scope port (some ip) = check_scope scope ip (check_port (net.atoi port))

  abbrev pub check_address : Bytes → Option (Bytes × Bytes) → Result ListenError Unit
  check_address scope none = err bad_address
  check_address scope (some (host, port)) = check_ip scope port (net.parse_ip host)

  unfoldable pub validate_listen_address : Bytes → Bytes → Result ListenError Unit
  validate_listen_address address scope = check_address scope (net.split_host_port address)

  -- parseFlags after flags.Parse.
  unfoldable pub parse_flags :
      (Bytes → Option Url) → (Url → Bytes) → Flags → Result FlagError CommandConfig
  parse_flags parse to_string f = reject (not (is_empty f.rest)) positional (
      as_gateway (normalize_origin parse to_string f.gateway_url) >>= λ origin.
      reject (same_bool (is_set f.trust_policy) f.policy_updates) not_one_source (
        reject (not (is_positive f.policy_refresh)) bad_refresh (
          as_listen (validate_listen_address f.listen f.listen_scope) >>= λ _.
          reject (not (is_positive f.attestation_timeout)) bad_timeout (ok (config_of origin f)))))

-- The Config that run passes to nexus.New.
abbrev pub sdk_config : CommandConfig → Config
sdk_config c = record {
  gateway_url = c.gateway_origin;
  trust_policy_file = c.trust_policy_path;
  trust_policy_json = [];
  attestation_timeout = c.attestation_timeout;
  trust_policy_updates =
      if c.policy_updates
      then some (record {
        repository = [];
        releases = 0;
        cache_file = c.policy_cache_file;
        interval = c.policy_refresh;
      })
      else none;
  state_file = c.state_file;
  disable_verification_ui = not c.verification_ui;
  disable_model_catalog = not c.model_catalog;
}
