-- ===== src/Sdk/Updates.antt =====
-- client.go: startPolicyRefresh, whose loop re-derives the policy at every tick. A tick is what
-- source.Policy gave at it.
use dappnode_nexus_sdk.Prelude.{List, [], ◌∷◌, ◌++◌, All, Option, none, some, ◌≡◌, refl, ap}
use dappnode_nexus_sdk.Prelude.Result.{Result, ok, err}
use dappnode_nexus_sdk.Attestation.Policy.{Policy, PolicyError, validate}
use dappnode_nexus_sdk.Attestation.Verifier.{set_policy, install}
use dappnode_nexus_sdk.Attestation.Verifier.Types.{Verifier}

-- A policy that could not be derived, or that does not validate, changes nothing.
abbrev pub tick : Option Policy → Verifier → Verifier
tick none v = v
tick (some p) v = (set_policy v p).0

-- The loop, over the ticks until the context is cancelled.
unfoldable pub refresh_loop : List (Option Policy) → Verifier → Verifier
refresh_loop [] v = v
refresh_loop (t ∷ ts) v = refresh_loop ts (tick t v)

-- A tick that gives no policy to install.
abbrev Fails : Option Policy → Type 0
Fails none = Unit
Fails (some q) = (e : PolicyError) × (validate q ≡ err e)

-- The policy in force after the ticks: the first one while none gives another, and otherwise the
-- last that one gave.
pub data InForce (first : Policy) : List (Option Policy) → Policy → Type 0 where
  unchanged : (ts : List (Option Policy)) → All Fails ts → InForce first ts first
  from_tick :
      (ts before after : List (Option Policy)) (q p : Policy)
      → ts ≡ before ++ some q ∷ after
      → validate q ≡ ok p
      → All Fails after
      → InForce first ts p

InForce-failed :
    (first p : Policy) (t : Option Policy) (ts : List (Option Policy))
    → Fails t
    → InForce first ts p
    → InForce first (t ∷ ts) p
InForce-failed first p t ts f (unchanged _ h) = unchanged (t ∷ ts) (f, h)
InForce-failed first p t ts f (from_tick _ before after q _ e v h) =
    from_tick (t ∷ ts) (t ∷ before) after q p (ap (◌∷◌ t) e) v h

InForce-replaced :
    (first q p : Policy) (ts : List (Option Policy)) (last : Policy)
    → validate q ≡ ok p
    → InForce p ts last
    → InForce first (some q ∷ ts) last
InForce-replaced first q p ts last v (unchanged _ h) = from_tick (some q ∷ ts) [] ts q p refl v h
InForce-replaced first q p ts last v (from_tick _ before after r _ e w h) =
    from_tick (some q ∷ ts) (some q ∷ before) after r last (ap (◌∷◌ (some q)) e) w h

InForce-installed :
    (v : Verifier) (q : Policy) (ts : List (Option Policy)) (r : Result PolicyError Policy)
    → validate q ≡ r
    → ((w : Verifier) → InForce w.policy ts (refresh_loop ts w).policy)
    → InForce v.policy (some q ∷ ts) (refresh_loop ts (install v r).0).policy
InForce-installed v q ts (ok p) e ih =
    InForce-replaced v.policy q p ts _ e (ih (record v { policy = p }))
InForce-installed v q ts (err x) e ih = InForce-failed v.policy _ (some q) ts (x, e) (ih v)

-- While the refresh loop runs, the policy in force is the one that the last tick with a policy that
-- validates gave, and the first one before there was such a tick.
refresh_loop-InForce :
    (ts : List (Option Policy)) (v : Verifier) → InForce v.policy ts (refresh_loop ts v).policy
unfolding refresh_loop set_policy
refresh_loop-InForce [] v = unchanged [] tt
refresh_loop-InForce (none ∷ ts) v =
    InForce-failed v.policy _ none ts tt (refresh_loop-InForce ts v)
refresh_loop-InForce (some q ∷ ts) v =
    InForce-installed v q ts (validate q) refl (refresh_loop-InForce ts)
