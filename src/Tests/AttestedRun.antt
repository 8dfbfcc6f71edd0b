-- ===== src/Tests/AttestedRun.antt =====
-- A run of New over the verifier of attestations.
use dappnode_nexus_sdk.Prelude.{◌≡◌, refl, arith, some, []}
use dappnode_nexus_sdk.Prelude.Bytes.{Bytes, codes, bytes_eq}
use dappnode_nexus_sdk.Prelude.Hex.{hex_encode, hex_decode, hex_digit, hex_value}
use dappnode_nexus_sdk.Prelude.Result.{ok}
use dappnode_nexus_sdk.Prelude.Space.{trim_space}
use dappnode_nexus_sdk.Jsonutil.{read_limited, read_all_limited, is_json_object}
use dappnode_nexus_sdk.Url.{normalize_origin, validate_endpoint}
use dappnode_nexus_sdk.Attestation.Policy
use dappnode_nexus_sdk.Attestation.Policy.{
  combine, all_zero, all_hex, is_revision, decode_pcr, contains, validate_release,
  validate_releases, e2ee_eq, release_for, pcr_at,
}
use dappnode_nexus_sdk.Attestation.Verifier
use dappnode_nexus_sdk.Attestation.Verifier.Fetch.{
  decode_canonical_hex, check_payload, check_response, fetch, verify,
}
use dappnode_nexus_sdk.Confidential.{
  VerifiedSession, session_for, fingerprint_key, do_post, exchanged, post_of,
}
use dappnode_nexus_sdk.Sdk.Config.{validate_config, normalize_gateway_url, is_set}
use dappnode_nexus_sdk.Sdk.Client
use dappnode_nexus_sdk.Sdk.Client.{Outside}
use dappnode_nexus_sdk.Sdk.Client.Attested.{IsAttested, with_verifier, new_client-IsAttested}
use dappnode_nexus_sdk.Command.{sdk_config}
use dappnode_nexus_sdk.Tests.Fixtures.{send, verifier, deps_for, revision, nonce, now, evidence}
use dappnode_nexus_sdk.Tests.ProxyRuns.{ehbp, session_clock}
use dappnode_nexus_sdk.Tests.SdkRuns.{command, outside, started_client}

abbrev attesting : Outside
attesting = with_verifier (λ e. []) (deps_for revision) send verifier (some nonce) now outside

attested_started :
    Client.new_client attesting ehbp session_clock (sdk_config command) ≡ ok started_client
unfolding Client.new_client Client.new_verifier validate_config normalize_gateway_url
    normalize_origin validate_endpoint is_set trim_space Policy.validate validate_releases
    validate_release decode_pcr is_revision all_hex all_zero combine bytes_eq hex_encode hex_digit
    hex_decode hex_value contains e2ee_eq session_for verify fetch check_response check_payload
    decode_canonical_hex read_all_limited read_limited is_json_object Verifier.validate
    Verifier.after_claims Verifier.check_claims Verifier.select_release Verifier.check_result
    Verifier.check_present Verifier.check_contents Verifier.check_time Verifier.check_pcrs
    release_for pcr_at
attested_started = refl

-- The session of the client that was started.
abbrev held : VerifiedSession Bytes
held = record {
  serial = 0;
  transport = evidence.public_key;
  expires_at = evidence.expires_at;
  attestation_id = fingerprint_key ehbp evidence.public_key;
}

held_in_use : started_client.confidential.session ≡ some held
unfolding session_for
held_in_use = refl

new_client-IsAttested_example :
    IsAttested
      (λ e. [])
      (deps_for revision)
      send
      verifier
      (some nonce)
      now
      outside
      ehbp
      session_clock
      (sdk_config command)
      held
    × (do_post ehbp started_client.confidential session_clock
          (ok (some evidence))
          []
          []
          []
          (codes "{}")
        ≡ exchanged ehbp started_client.confidential held (
            ehbp.exchange held.transport
              (post_of ehbp started_client.confidential [] [] [] (codes "{}"))))
new_client-IsAttested_example =
    new_client-IsAttested (λ e. []) (deps_for revision) send verifier (some nonce) now outside ehbp
      session_clock (sdk_config command) started_client held session_clock (ok (some evidence)) []
      [] [] (codes "{}") attested_started held_in_use (omega arith) refl refl
