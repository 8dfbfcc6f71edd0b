-- ===== src/Tests/AttestationRuns.antt =====
-- Runs of the policy and of the verifier of attestations.
use dappnode_nexus_sdk.Prelude.{
  ◌+◌, ◌*◌, ◌≤◌, ◌<◌, ◌≡◌, ◌↔◌, ◌⊎◌, true, arith, List, refl, Option, none, some, [], ◌∷◌,
}
use dappnode_nexus_sdk.Prelude.Bytes.{bytes_eq}
use dappnode_nexus_sdk.Prelude.Hex.{hex_encode, hex_decode, hex_digit, hex_value}
use dappnode_nexus_sdk.Prelude.Result.{Result, ok, err}
use dappnode_nexus_sdk.Attestation.Policy.{
  PolicyError, combine, all_zero, all_hex, is_revision, decode_pcr, contains, validate_release,
  validate_releases, e2ee_eq, release_for, pcr_at,
}
use dappnode_nexus_sdk.Attestation.Policy
use dappnode_nexus_sdk.Attestation.Verifier
use dappnode_nexus_sdk.Attestation.Verifier.Types.{VerifyError, Evidence, Verifier}
use dappnode_nexus_sdk.Attestation.Verifier.Pinned.{validate-window}
use dappnode_nexus_sdk.Attestation.Verifier.Unpinned.{IsUnpinned, validate-unpinned}
use dappnode_nexus_sdk.Prelude.Time.{add, pos, minute}
use dappnode_nexus_sdk.Attestation.Policy.Validated.{IsPolicy, policy_validate_iff}
use dappnode_nexus_sdk.Attestation.Verifier.Accepted.{Binds, validate_iff}
use dappnode_nexus_sdk.Attestation.Verifier.Fetch.{verify}
use dappnode_nexus_sdk.Refresh.{
  RefreshingVerifier, allow_refresh, refresh, is_unpinned, verify as refresh_verify,
}
use dappnode_nexus_sdk.Refresh.Outcome.{Refreshed, refresh-Refreshed, verify-ok}
use dappnode_nexus_sdk.Refresh.Rate.{
  Call, AllSane, no_calls, one_more, stamps, Asked, Spaced, stamps-Spaced,
}
use dappnode_nexus_sdk.Tests.Fixtures.{
  policy, source_policy, verifier, deps_for, revision, other_revision, fetched, nonce, now,
  evidence,
}

accepted : Verifier.validate (deps_for revision) verifier fetched nonce now ≡ ok evidence
unfolding Verifier.validate Verifier.after_claims Verifier.check_claims Verifier.select_release
    Verifier.check_result Verifier.check_present Verifier.check_contents Verifier.check_time
    Verifier.check_pcrs bytes_eq all_zero combine e2ee_eq release_for pcr_at
accepted = refl

unknown :
    Verifier.validate (deps_for other_revision) verifier fetched nonce now
    ≡ err (VerifyError.unpinned other_revision)
unfolding Verifier.validate Verifier.after_claims Verifier.check_claims Verifier.select_release
    Verifier.check_result Verifier.check_present Verifier.check_contents Verifier.check_time
    Verifier.check_pcrs bytes_eq all_zero combine e2ee_eq release_for pcr_at
unknown = refl

validate-unpinned_example :
    IsUnpinned (deps_for other_revision) policy fetched.manifest other_revision
validate-unpinned_example =
    validate-unpinned (deps_for other_revision) verifier fetched nonce now other_revision unknown

validate-window_example :
    (evidence.expires_at ≡ add evidence.attested_at verifier.max_age)
    × (now ≤ evidence.expires_at)
    × (evidence.attested_at < evidence.expires_at)
    × (evidence.attested_at ≤ add now verifier.max_future_skew)
validate-window_example =
    validate-window (deps_for revision) verifier fetched nonce now evidence accepted

validate_iff_example :
    (Verifier.validate (deps_for revision) verifier fetched nonce now ≡ ok evidence)
    ↔ Binds (deps_for revision) verifier fetched nonce now evidence
validate_iff_example = validate_iff (deps_for revision) verifier fetched nonce now evidence

policy_validate_iff_example :
    (Policy.validate source_policy ≡ ok policy) ↔ IsPolicy source_policy policy
policy_validate_iff_example = policy_validate_iff source_policy policy

-- A verifier whose policy is empty, with a source that knows the release.
abbrev outdated : RefreshingVerifier
outdated = record {
  inner = record verifier { policy = record policy { releases = [] } };
  last_refresh = 0;
}

abbrev run : Verifier → Result VerifyError Evidence
run v = Verifier.validate (deps_for revision) v fetched nonce now

refreshed : (refresh_verify outdated now now (some source_policy) run run).1 ≡ ok evidence
unfolding refresh_verify refresh allow_refresh Verifier.set_policy Verifier.validate
    Verifier.after_claims Verifier.check_claims Verifier.select_release Verifier.check_result
    Verifier.check_present Verifier.check_contents Verifier.check_time Verifier.check_pcrs bytes_eq
    all_zero combine e2ee_eq release_for pcr_at Policy.validate validate_releases validate_release
    decode_pcr is_revision all_hex hex_encode hex_digit hex_decode hex_value contains
refreshed = refl

verify-ok_example :
    (run outdated.inner ≡ ok evidence)
    ⊎ ((e : VerifyError) × (run outdated.inner ≡ err e)
        × (is_unpinned e ≡ true)
        × (p : Policy.Policy) × (p' : Policy.Policy) × (◌≡◌ {A = Option Policy.Policy}
            (some source_policy)
            (some p))
        × (Policy.validate p ≡ ok p')
        × (run (record outdated.inner { policy = p' }) ≡ ok evidence))
verify-ok_example = verify-ok outdated now now (some source_policy) run run evidence refreshed

stale : run (record verifier { policy = policy; max_age = pos 1 }) ≡ err VerifyError.stale
unfolding Verifier.validate Verifier.after_claims Verifier.check_claims Verifier.select_release
    Verifier.check_result Verifier.check_present Verifier.check_contents Verifier.check_time
    Verifier.check_pcrs bytes_eq all_zero combine e2ee_eq release_for pcr_at
stale = refl

abbrev strict : RefreshingVerifier
strict = record { inner = record verifier { max_age = pos 1 }; last_refresh = 0 }

refresh-Refreshed_example :
    Refreshed outdated
      (some source_policy)
      (refresh outdated now now (some source_policy)).0
      (refresh outdated now now (some source_policy)).1
refresh-Refreshed_example = refresh-Refreshed outdated now now (some source_policy)

abbrev calls : List Call
calls =
    record { now = now; stamp = now; derived = none }
    ∷ record { now = now + 1; stamp = now + 1; derived = some source_policy }
    ∷ record { now = now + 10 * minute; stamp = now + 10 * minute; derived = some source_policy }
    ∷ []

sane : AllSane calls
sane =
    one_more (omega arith, omega arith)
      (one_more (omega arith, omega arith) (one_more (omega arith, omega arith) no_calls))

stamps-Spaced_example :
    Asked outdated calls (stamps outdated calls) × Spaced 0 (stamps outdated calls)
stamps-Spaced_example = stamps-Spaced outdated calls sane
