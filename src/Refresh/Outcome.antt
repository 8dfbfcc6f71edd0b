-- ===== src/Refresh/Outcome.antt =====
-- What one call of the refreshing verifier may do to the policy, and which policy its evidence was
-- verified under (policy_refresh.go).
use dappnode_nexus_sdk.Prelude.{
  ◌≡◌, ◌≢◌, refl, ap, sym, ◌∙◌, Bool, true, false, Option, none, some, ◌⊎◌, inl, inr, Bool-cases,
}
use dappnode_nexus_sdk.Prelude.Result.{Result, ok, err, Result-cases}
use dappnode_nexus_sdk.Prelude.Time.{Time}
use dappnode_nexus_sdk.Attestation.Policy.{Policy, PolicyError, validate}
use dappnode_nexus_sdk.Attestation.Verifier.Types.{Verifier, Evidence, VerifyError}
use dappnode_nexus_sdk.Attestation.Verifier.{set_policy, install}
use dappnode_nexus_sdk.Refresh.{
  RefreshingVerifier, soon, allow_refresh, derive, refresh, is_unpinned, try_again, verify,
}

-- SetPolicy puts a policy in force exactly when it validates, and changes nothing else.
pub set_policy_lem :
    (v : Verifier) (p : Policy)
    → ((p' : Policy) × (validate p ≡ ok p') × (set_policy v p ≡ (record v { policy = p' }, ok tt)))
      ⊎ ((e : PolicyError) × (validate p ≡ err e) × (set_policy v p ≡ (v, err e)))
unfolding set_policy
set_policy_lem v p = elim (Result-cases (validate p)) [
  | inl (p', e) ↦ inl (p', e, ap (install v) e)
  | inr (why, e) ↦ inr (why, e, ap (install v) e)
]

-- Nothing but the time stamp has changed, or the derived policy has been validated and put in force.
pub data Refreshed (v : RefreshingVerifier) (derived : Option Policy)
    : RefreshingVerifier → Bool → Type 0 where
  kept : (last : Time) → Refreshed v derived (record v { last_refresh = last }) false
  replaced :
      (last : Time) (p p' : Policy)
      → derived ≡ some p
      → validate p ≡ ok p'
      → Refreshed v derived
          (record { inner = record v.inner { policy = p' }; last_refresh = last })
          true

derive-Refreshed :
    (v : RefreshingVerifier) (last : Time) (derived : Option Policy)
    → Refreshed v derived
        (derive (record v { last_refresh = last }) derived).0
        (derive (record v { last_refresh = last }) derived).1
derive-Refreshed v last none = kept last
derive-Refreshed v last (some p) = elim (set_policy_lem v.inner p) [
  | inl (p', valid, e) ↦ rw e (replaced last p p' refl valid)
  | inr (why, _, e) ↦ rw e (kept last)
]

-- A refresh that reports true has validated the derived policy and put it in force; one that
-- reports false has changed no more than the time of the last refresh.
pub refresh-Refreshed :
    (v : RefreshingVerifier) (now stamp : Time) (derived : Option Policy)
    → Refreshed v derived (refresh v now stamp derived).0 (refresh v now stamp derived).1
unfolding refresh allow_refresh
refresh-Refreshed v now stamp derived = elim (Bool-cases (soon v now)) [
  | inl e ↦ rw e (kept v.last_refresh)
  | inr e ↦ rw e (derive-Refreshed v stamp derived)
]

not_ok : (e : VerifyError) (ev : Evidence) → ◌≢◌ {A = Result VerifyError Evidence} (err e) (ok ev)
not_ok e ev h = cc

module _ (v : RefreshingVerifier) (now stamp : Time) (derived : Option Policy)
    (first second : Verifier → Result VerifyError Evidence) where
  -- A failure other than ErrUnpinnedRelease, such as a measurement that disagrees, is returned as
  -- it is: nothing is refreshed and nothing is tried again.
  pub verify_other_error :
      (e : VerifyError)
      → first v.inner ≡ err e
      → is_unpinned e ≡ false
      → verify v now stamp derived first second ≡ (v, err e)
  unfolding verify
  verify_other_error e h u = rw (h, u) refl

  try_again-ok :
      (e : VerifyError) (r : RefreshingVerifier) (b : Bool) (ev : Evidence)
      → Refreshed v derived r b
      → (try_again e second (r, b)).1 ≡ ok ev
      → (p : Policy) × (p' : Policy) × (derived ≡ some p)
        × (validate p ≡ ok p')
        × (second (record v.inner { policy = p' }) ≡ ok ev)
  try_again-ok e r b ev (kept last) h = absurd (cc)
  try_again-ok e r b ev (replaced last p p' d valid) h = (p, p', d, valid, h)

  -- Evidence comes from the first run, or, only after that run met an unpinned release, from the
  -- second, under the derived policy, which has been validated.
  pub verify-ok :
      (ev : Evidence)
      → (verify v now stamp derived first second).1 ≡ ok ev
      → (first v.inner ≡ ok ev)
        ⊎ ((e : VerifyError) × (first v.inner ≡ err e)
            × (is_unpinned e ≡ true)
            × (p : Policy) × (p' : Policy) × (derived ≡ some p)
            × (validate p ≡ ok p')
            × (second (record v.inner { policy = p' }) ≡ ok ev))
  unfolding verify
  verify-ok ev h = elim (Result-cases (first v.inner)) [
    | inl (x, e) ↦ inl (e ∙ (rw e at h))
    | inr (why, e) ↦ elim (Bool-cases (is_unpinned why)) [
      | inr u ↦ absurd (
          not_ok why ev (
            ap (λ (r : RefreshingVerifier × Result VerifyError Evidence). r.1)
              (sym (verify_other_error why e u))
            ∙ unfold verify in h))
      | inl u ↦
          let (p, p', d, valid, done) =
            try_again-ok why (refresh v now stamp derived).0 (refresh v now stamp derived).1 ev
              (refresh-Refreshed v now stamp derived) (rw (e, u) at h) in
          inr (why, e, u, p, p', d, valid, done)
    ]
  ]
