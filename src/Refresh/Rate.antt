-- ===== src/Refresh/Rate.antt =====
-- How often the derivation of a policy may be triggered (policy_refresh.go).
use dappnode_nexus_sdk.Prelude.{
  ℕ, ◌+◌, ◌≤◌, ◌<◌, ◌≡◌, ◌⊎◌, refl, true, false, not, ◌&&◌, Option, none, some, List, [], ◌∷◌, ltb,
  ◌==◌, arith, if◌then◌else◌, Bool-cases, inl, inr,
}
use mathlib.Core.Path.{subst}
use dappnode_nexus_sdk.Prelude.Time.{Time}
use dappnode_nexus_sdk.Prelude.Result.{Result, ok, err}
use dappnode_nexus_sdk.Attestation.Policy.{Policy, PolicyError}
use dappnode_nexus_sdk.Attestation.Verifier.Types.{Verifier}
use dappnode_nexus_sdk.Attestation.Verifier.{set_policy}
use dappnode_nexus_sdk.Refresh.{
  RefreshingVerifier, minimum_triggered_refresh_interval, soon, allow_refresh, applied, derive,
  refresh,
}

-- One call of refresh: the two readings of its clock, and what the source of policies returns.
pub record Call : Type 0 where
  pub now : Time
  pub stamp : Time
  pub derived : Option Policy

-- The clock is past its zero, and does not go back within a call.
abbrev pub IsSane : Call → Type 0
IsSane c = (0 < c.now) × (c.now ≤ c.stamp)

pub data AllSane : List Call → Type 0 where
  no_calls : AllSane []
  one_more : {c : Call} {cs : List Call} → IsSane c → AllSane cs → AllSane (c ∷ cs)

-- The stamps of the calls of a sequence that the rate limit lets through.
unfoldable pub stamps : RefreshingVerifier → List Call → List Time
stamps v [] = []
stamps v (c ∷ cs) =
    let rest = stamps (refresh v c.now c.stamp c.derived).0 cs in
    if soon v c.now then rest else c.stamp ∷ rest

-- Each time is at least five minutes after the one before it. The first is so after `t`, unless
-- `t` is the zero time, which none of them is.
pub data Spaced : Time → List Time → Type 0 where
  done : {t : Time} → Spaced t []
  next :
      {t u : Time} {us : List Time}
      → (t ≡ 0) ⊎ (t + minimum_triggered_refresh_interval ≤ u)
      → 0 < u
      → Spaced u us
      → Spaced t (u ∷ us)

-- Every call of the sequence that is not among the times gives what it would give whatever the
-- source of policies returned: refresh has not asked the source in it.
pub data Asked : RefreshingVerifier → List Call → List Time → Type 0 where
  no_more : {v : RefreshingVerifier} → Asked v [] []
  asked :
      {v : RefreshingVerifier} {c : Call} {cs : List Call} {ts : List Time}
      → Asked (refresh v c.now c.stamp c.derived).0 cs ts
      → Asked v (c ∷ cs) (c.stamp ∷ ts)
  unasked :
      {v : RefreshingVerifier} {c : Call} {cs : List Call} {ts : List Time}
      → ((other : Option Policy)
          → refresh v c.now c.stamp other ≡ refresh v c.now c.stamp c.derived)
      → Asked (refresh v c.now c.stamp c.derived).0 cs ts
      → Asked v (c ∷ cs) ts

applied-last_refresh :
    (v : RefreshingVerifier) (w : Verifier × Result PolicyError Unit)
    → (applied v w).0.last_refresh ≡ v.last_refresh
applied-last_refresh v (w, ok u) = refl
applied-last_refresh v (w, err e) = refl

derive-last_refresh :
    (v : RefreshingVerifier) (derived : Option Policy)
    → (derive v derived).0.last_refresh ≡ v.last_refresh
derive-last_refresh v none = refl
derive-last_refresh v (some p) = applied-last_refresh v (set_policy v.inner p)

module _ (v : RefreshingVerifier) (now stamp : Time) (derived : Option Policy) where
  refresh-soon : soon v now ≡ true → (refresh v now stamp derived).0.last_refresh ≡ v.last_refresh
  unfolding refresh allow_refresh
  refresh-soon h = rw h refl

  refresh_unasked :
      soon v now ≡ true
      → (other : Option Policy) → refresh v now stamp other ≡ refresh v now stamp derived
  unfolding refresh allow_refresh
  refresh_unasked h other = rw h refl

  refresh_allowed : soon v now ≡ false → (refresh v now stamp derived).0.last_refresh ≡ stamp
  unfolding refresh allow_refresh
  refresh_allowed h = rw h (derive-last_refresh (record v { last_refresh = stamp }) derived)

not_soon :
    (last now stamp : ℕ)
    → (not (last == 0) && ltb now (last + minimum_triggered_refresh_interval)) ≡ false
    → now ≤ stamp
    → (last ≡ 0) ⊎ (last + minimum_triggered_refresh_interval ≤ stamp)
not_soon last now stamp h k = ground arith

far_apart :
    (v : RefreshingVerifier) (cs : List Call) → AllSane cs → Spaced v.last_refresh (stamps v cs)
unfolding stamps
far_apart v [] no_calls = done
far_apart v (c ∷ cs) (one_more (past, sane) rest) =
    let ih = far_apart (refresh v c.now c.stamp c.derived).0 cs rest in
    let later = stamps (refresh v c.now c.stamp c.derived).0 cs in
    elim (Bool-cases (soon v c.now)) [
      | inl e ↦ rw (e) (subst (λ t. Spaced t later) (refresh-soon v c.now c.stamp c.derived e) ih)
      | inr e ↦ rw (e) (
          next (not_soon v.last_refresh c.now c.stamp e sane) (omega arith)
            (subst (λ t. Spaced t later) (refresh_allowed v c.now c.stamp c.derived e) ih))
    ]

stamps-Asked : (v : RefreshingVerifier) (cs : List Call) → Asked v cs (stamps v cs)
unfolding stamps
stamps-Asked v [] = no_more
stamps-Asked v (c ∷ cs) =
    let ih = stamps-Asked (refresh v c.now c.stamp c.derived).0 cs in
    elim (Bool-cases (soon v c.now)) [
      | inl e ↦ rw e (unasked (refresh_unasked v c.now c.stamp c.derived e) ih)
      | inr e ↦ rw e (asked ih)
    ]

-- Whatever the calls of refresh, the stamps of those in which it may have asked the source for a
-- policy (in every other call the result is the same whatever the source returns) are at least
-- five minutes apart from each other and from the last one before them, provided that the clock is
-- past its zero and does not go back within a call.
pub stamps-Spaced :
    (v : RefreshingVerifier) (cs : List Call)
    → AllSane cs
    → Asked v cs (stamps v cs) × Spaced v.last_refresh (stamps v cs)
stamps-Spaced v cs sane = (stamps-Asked v cs, far_apart v cs sane)
