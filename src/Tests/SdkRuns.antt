-- ===== src/Tests/SdkRuns.antt =====
-- Runs of the embedding client, of the command, and of the local routes.
use dappnode_nexus_sdk.Prelude.{
  ℕ, zero, suc, ◌≡◌, ◌≢◌, ◌↔◌, refl, sym, ap, Bool, true, false, Option, none, some, List, [], ◌∷◌,
  ◌++◌, take, drop,
}
use mathlib.Core.Option.{some-injective}
use mathlib.Core.Path.{subst}
use dappnode_nexus_sdk.Prelude.Bytes.{Bytes, codes, bytes_eq}
use dappnode_nexus_sdk.Prelude.Result.{Result, ok}
use dappnode_nexus_sdk.Prelude.Time.{pos}
use dappnode_nexus_sdk.Http.{HttpRequest, HttpResponse}
use dappnode_nexus_sdk.AtomicFile.{Files, Faults}
use dappnode_nexus_sdk.Url.{Url, UrlLaws, not_https, origin_url, https, normalize_origin}
use dappnode_nexus_sdk.Catalog
use dappnode_nexus_sdk.Catalog.{IsCatalog, fetch-IsCatalog, catalog_request}
use dappnode_nexus_sdk.Release.{SignedRelease}
use dappnode_nexus_sdk.Release.Cache.{CacheFile, CacheCodec, IsCacheJson, Kept, store, store-Kept}
use dappnode_nexus_sdk.Ledger.{new, snapshot}
use dappnode_nexus_sdk.Proxy.Headers.{Headers}
use dappnode_nexus_sdk.Proxy.Routes.{Incoming, dispatch, new_handler}
use dappnode_nexus_sdk.Proxy.Routes.Closed.{closed_dispatch, dispatch-closed}
use dappnode_nexus_sdk.Sdk.Config.{validate_config, is_set}
use dappnode_nexus_sdk.Sdk.InProcess.{
  Event, set_header, write_header, write, finish, run, new_writer, round_trip,
}
use dappnode_nexus_sdk.Sdk.InProcess.Committed.{answer, transcript}
use dappnode_nexus_sdk.Sdk.InProcess.Delivered.{result, round_trip-result, finish-Ready}
use dappnode_nexus_sdk.Command.{
  Net, Flags, CommandConfig, config_of, sdk_config, parse_flags, validate_listen_address, loopback,
}
use dappnode_nexus_sdk.Command.Accepted.{parse_flags-validate_config}
use dappnode_nexus_sdk.Command.Listen.{Listens, validate_listen_address_iff}
use dappnode_nexus_sdk.Sdk.Client
use dappnode_nexus_sdk.Sdk.Client.{Outside}
use dappnode_nexus_sdk.Confidential.{session_for}
use dappnode_nexus_sdk.Sdk.Surface.{
  snapshot_to, snapshot_from_ledger, snapshot_to-snapshot_from_ledger,
}
use dappnode_nexus_sdk.Prelude.Space.{trim_space}
use dappnode_nexus_sdk.Jsonutil.{read_all_limited, read_limited, is_json_object}
use dappnode_nexus_sdk.Sdk.Methods.{verify}
use dappnode_nexus_sdk.Sdk.Methods.Verified.{VerifyIs, verify-VerifyIs}
use dappnode_nexus_sdk.Tests.Fixtures.{evidence, now, source_policy}
use dappnode_nexus_sdk.Tests.ProxyRuns.{client, ehbp, session_clock}

-- A handler that answers with a header and a body.
abbrev events : List (Event ℕ)
events = set_header 7 ∷ write_header 201 ∷ write (codes "ok") ∷ []

round_trip-result_example :
    round_trip true (codes "http") (codes "nexus.local") 0 events none
    ≡ result (answer 0 events) (transcript events)
round_trip-result_example = round_trip-result 0 events

finish-Ready_example :
    let w = run (events ++ finish none ∷ []) (new_writer 0) in
    (w.ready ≡ true) × (w.pipe.closed ≢ none)
finish-Ready_example = finish-Ready 0 events [] none

-- A URL of which the text is the host.
abbrev url_of : Bytes → Url
url_of host = record {
  scheme = https;
  opaque = [];
  has_user = false;
  host = host;
  path = [];
  raw_path = [];
  force_query = false;
  raw_query = [];
  fragment = [];
}

parse : Bytes → Option Url
parse [] = none
parse (c ∷ cs) = some (url_of (c ∷ cs))

abbrev url_text : Url → Bytes
url_text u = u.host

parse_reads_back :
    (raw : Bytes) (u : Url)
    → parse raw ≡ some u
    → not_https u ≡ false
    → parse (url_text (origin_url u)) ≡ some (origin_url u)
unfolding parse
parse_reads_back [] u h s = absurd (cc)
parse_reads_back (c ∷ cs) u h s =
    subst (λ x. parse (url_text (origin_url x)) ≡ some (origin_url x))
      (some-injective (url_of (c ∷ cs)) u h) refl

parse_laws : UrlLaws parse url_text
unfolding parse
parse_laws = record { reads_back = parse_reads_back; no_empty = refl }

abbrev loopback_net : Net Bool
loopback_net = record {
  split_host_port = λ a. some (a, a);
  parse_ip = λ h. some true;
  is_loopback = λ i. i;
  is_unspecified = λ i. false;
  atoi = λ p. some (pos 3301);
}

validate_listen_address_iff_example :
    (validate_listen_address loopback_net (codes "127.0.0.1:3301") loopback ≡ ok tt)
    ↔ Listens loopback_net (codes "127.0.0.1:3301") loopback
validate_listen_address_iff_example =
    validate_listen_address_iff loopback_net (codes "127.0.0.1:3301") loopback

abbrev flags : Flags
flags = record {
  gateway_url = codes "nexus.example";
  trust_policy = [];
  listen = codes "127.0.0.1:3301";
  listen_scope = loopback;
  attestation_timeout = pos 5;
  verification_ui = true;
  model_catalog = true;
  state_file = [];
  policy_updates = true;
  policy_cache_file = [];
  policy_refresh = pos 9;
  rest = [];
}

abbrev pub command : CommandConfig
command = config_of (codes "nexus.example") flags

flags_accepted : parse_flags loopback_net parse url_text flags ≡ ok command
unfolding parse_flags normalize_origin parse validate_listen_address is_set bytes_eq
flags_accepted = refl

parse_flags-validate_config_example :
    validate_config parse url_text (sdk_config command) ≡ ok (codes "nexus.example", pos 5)
parse_flags-validate_config_example =
    parse_flags-validate_config loopback_net parse url_text parse_laws flags command flags_accepted

abbrev sdk : Client.Client Bytes
sdk = record {
  gateway_url = codes "https://nexus.example";
  timeout = pos 5;
  confidential = client;
  ui = true;
  catalog = true;
}

verify-VerifyIs_example :
    VerifyIs ehbp session_clock
      (ok (some evidence))
      (verify ehbp sdk session_clock now (ok (some evidence))).0
      (verify ehbp sdk session_clock now (ok (some evidence))).1
verify-VerifyIs_example = verify-VerifyIs ehbp sdk session_clock now (ok (some evidence)) new refl

abbrev response_headers : Headers
response_headers =
    (codes "Retry-After", codes "3" ∷ []) ∷ (codes "Connection", codes "Retry-After" ∷ []) ∷ []

abbrev fetched : ℕ × Result ℕ Bytes
fetched = (200, ok (codes "{}"))

abbrev incoming : Incoming
incoming = record { method = codes "GET"; path = codes "/v1/verification"; id = []; part = [] }

dispatch-closed_example : dispatch new_handler now fetched incoming ≡ closed_dispatch incoming
dispatch-closed_example = dispatch-closed new_handler now fetched incoming refl refl

snapshot_to-snapshot_from_ledger_example :
    snapshot_to (snapshot_from_ledger (snapshot now new)) ≡ snapshot now new
snapshot_to-snapshot_from_ledger_example = snapshot_to-snapshot_from_ledger now new

-- A Gateway that answers every request with an empty object and a line's end.
abbrev wire : HttpRequest → Option HttpResponse
wire q = some (record {
  status = 200;
  content_type = codes "application/json";
  body = record { bytes = codes "{}\n"; failure = false };
})

catalog_fetched :
    (Catalog.fetch (λ b. true) wire (codes "https://nexus.example/v1/models")).1 ≡ ok (codes "{}")
unfolding Catalog.fetch read_all_limited read_limited trim_space is_json_object
catalog_fetched = refl

fetch-IsCatalog_example :
    IsCatalog
      (λ b. true)
      (wire (catalog_request (codes "https://nexus.example/v1/models")))
      (codes "{}")
fetch-IsCatalog_example =
    fetch-IsCatalog (λ b. true) wire (codes "https://nexus.example/v1/models") (codes "{}")
      catalog_fetched

-- A codec for files of one release without a bundle.
abbrev only : Bytes → CacheFile
only m = record { schema_version = 1; releases = record { manifest = m; bundle = [] } ∷ [] }

marshal_release : Bytes → Bytes → Option Bytes
marshal_release m [] = some m
marshal_release m (c ∷ cs) = none

marshal_at : ℕ → List SignedRelease → Option Bytes
marshal_at (suc zero) (r ∷ []) = marshal_release r.manifest r.bundle
marshal_at _ _ = none

abbrev cache_codec : CacheCodec
cache_codec = record {
  marshal = λ f. marshal_at f.schema_version f.releases;
  unmarshal = λ b. some (only b);
}

release_decodes :
    (m bundle b : Bytes)
    → marshal_release m bundle ≡ some b
    → only b
      ≡ record { schema_version = 1; releases = record { manifest = m; bundle = bundle } ∷ [] }
unfolding marshal_release
release_decodes m [] b h = ap only (sym (some-injective m b h))
release_decodes m (c ∷ cs) b h = absurd (cc)

cache_decodes_at :
    (version : ℕ) (rs : List SignedRelease) (b : Bytes)
    → marshal_at version rs ≡ some b
    → only b ≡ record { schema_version = version; releases = rs }
unfolding marshal_at
cache_decodes_at (suc zero) (r ∷ []) b h = release_decodes r.manifest r.bundle b h
cache_decodes_at zero rs b h = absurd (cc)
cache_decodes_at (suc zero) [] b h = absurd (cc)
cache_decodes_at (suc zero) (r ∷ q ∷ rs) b h = absurd (cc)
cache_decodes_at (suc (suc n)) rs b h = absurd (cc)

cache_is_json : IsCacheJson cache_codec
cache_is_json = record {
  decodes = λ f b h. ap some (cache_decodes_at f.schema_version f.releases b h);
}

abbrev no_faults : Faults
no_faults = record { fails = λ s. false; written = 0 }

abbrev no_files : Files
no_files = record { target = none; temporary = none }

abbrev entries : List SignedRelease
entries = record { manifest = codes "{}"; bundle = [] } ∷ []

store-Kept_example :
    Kept cache_codec entries none (store cache_codec no_faults true entries no_files)
store-Kept_example = store-Kept cache_codec cache_is_json no_faults true entries no_files

-- Every URL has a host of thirteen characters and the rest as its path.
abbrev split_url : Bytes → Option Url
split_url b = some (record (url_of (take 13 b)) { path = drop 13 b })

abbrev pub outside : Outside
outside = record {
  parse_url = split_url;
  url_text = url_text;
  open_file = λ p. none;
  make_directory = λ p. false;
  read_file = λ p. none;
  decode_policy = λ b. none;
  state_codec = record { marshal = λ s. none; unmarshal = λ b. none };
  derive = λ u. some source_policy;
  verify = λ p. ok (some evidence);
}

abbrev pub started_client : Client.Client Bytes
started_client = record {
  gateway_url = codes "nexus.example";
  timeout = pos 5;
  confidential =
      (session_for ehbp (Client.confidential_client outside (codes "nexus.example") new)
        session_clock (ok (some evidence))).0;
  ui = true;
  catalog = true;
}
