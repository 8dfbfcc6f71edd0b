-- ===== src/Refresh.antt =====
-- policy_refresh.go: a verifier that derives its policy again when it meets an unknown release.
-- What source.Policy returns is the argument `derived`; the two runs of the inner verifier, at the
-- policy then in force, are `first` and `second`; `now` and `stamp` are the readings of the clock.
pub mod Outcome
pub mod Rate
use dappnode_nexus_sdk.Prelude.{
  ℕ, ◌+◌, ◌*◌, Bool, true, false, not, ◌&&◌, Option, none, some, ltb, ◌==◌, if◌then◌else◌,
}
use dappnode_nexus_sdk.Prelude.Result.{Result, ok, err}
use dappnode_nexus_sdk.Prelude.Time.{Time, minute}
use dappnode_nexus_sdk.Attestation.Policy.{Policy, PolicyError}
use dappnode_nexus_sdk.Attestation.Verifier.Types.{Verifier, Evidence, VerifyError}
use dappnode_nexus_sdk.Attestation.Verifier.{set_policy}

abbrev pub minimum_triggered_refresh_interval : ℕ
minimum_triggered_refresh_interval = 5 * minute

pub record RefreshingVerifier : Type 0 where
  pub inner : Verifier
  pub last_refresh : Time

-- The test of allowRefresh.
abbrev pub soon : RefreshingVerifier → Time → Bool
soon v now =
    not (v.last_refresh == 0) && ltb now (v.last_refresh + minimum_triggered_refresh_interval)

unfoldable pub allow_refresh : RefreshingVerifier → Time → Time → RefreshingVerifier × Bool
allow_refresh v now stamp =
    if soon v now then (v, false) else (record v { last_refresh = stamp }, true)

abbrev pub applied :
    RefreshingVerifier → Verifier × Result PolicyError Unit → RefreshingVerifier × Bool
applied v (inner, ok u) = (record v { inner = inner }, true)
applied v (inner, err e) = (record v { inner = inner }, false)

-- refresh, behind the rate limit.
abbrev pub derive : RefreshingVerifier → Option Policy → RefreshingVerifier × Bool
derive v none = (v, false)
derive v (some p) = applied v (set_policy v.inner p)

abbrev pub if_allowed : RefreshingVerifier × Bool → Option Policy → RefreshingVerifier × Bool
if_allowed (v, false) derived = (v, false)
if_allowed (v, true) derived = derive v derived

unfoldable pub refresh :
    RefreshingVerifier → Time → Time → Option Policy → RefreshingVerifier × Bool
refresh v now stamp derived = if_allowed (allow_refresh v now stamp) derived

-- errors.Is(err, ErrUnpinnedRelease)
abbrev pub is_unpinned : VerifyError → Bool
is_unpinned (VerifyError.unpinned revision) = true
is_unpinned _ = false

-- What follows the refresh: the second run, or the first failure again.
abbrev pub try_again :
    VerifyError
    → (Verifier → Result VerifyError Evidence)
    → RefreshingVerifier × Bool
    → RefreshingVerifier × Result VerifyError Evidence
try_again e second (v, false) = (v, err e)
try_again e second (v, true) = (v, second v.inner)

abbrev pub after_first :
    RefreshingVerifier
    → Time
    → Time
    → Option Policy
    → (Verifier → Result VerifyError Evidence)
    → Result VerifyError Evidence
    → RefreshingVerifier × Result VerifyError Evidence
after_first v now stamp derived second (ok ev) = (v, ok ev)
after_first v now stamp derived second (err e) =
    if not (is_unpinned e) then (v, err e) else try_again e second (refresh v now stamp derived)

unfoldable pub verify :
    RefreshingVerifier
    → Time
    → Time
    → Option Policy
    → (Verifier → Result VerifyError Evidence)
    → (Verifier → Result VerifyError Evidence)
    → RefreshingVerifier × Result VerifyError Evidence
verify v now stamp derived first second = after_first v now stamp derived second (first v.inner)
