-- ===== src/Prelude/Result.antt =====
-- A Go result `(value, error)`: one of the two, never both.
use mathlib.Core.Path.{◌≡◌, refl, ap}
use mathlib.Core.Bool.{Bool, true, false}
use mathlib.Core.Logic.{◌⊎◌, inl, inr}

pub data Result {ℓ} (E A : Type ℓ) : Type ℓ where
  ok : A → Result E A
  err : E → Result E A

module _ {ℓ} {E A B : Type ℓ} where
  infixl 5 ◌>>=◌
  abbrev pub ◌>>=◌ : Result E A → (A → Result E B) → Result E B
  ok a >>= f = f a
  err e >>= f = err e

  -- Inversion of a chain that succeeds.
  pub bind-eq-ok :
      (m : Result E A) (f : A → Result E B) {b : B}
      → (m >>= f) ≡ ok b
      → (a : A) × (m ≡ ok a) × (f a ≡ ok b)
  bind-eq-ok (ok a) f h = (a, refl, h)
  bind-eq-ok (err e) f h = cc

-- `if test { return nil, e }`: the guard fails when the source's test holds.
abbrev pub reject {ℓ} : {E A : Type ℓ} → Bool → E → Result E A → Result E A
reject true e rest = err e
reject false e rest = rest

pub reject-eq-ok {ℓ} :
    {E A : Type ℓ} (b : Bool) (e : E) (rest : Result E A) {a : A}
    → reject b e rest ≡ ok a
    → (b ≡ false) × (rest ≡ ok a)
reject-eq-ok true e rest h = cc
reject-eq-ok false e rest h = (refl, h)

pub Result-cases {ℓ} :
    {E A : Type ℓ} (r : Result E A) → ((a : A) × (r ≡ ok a)) ⊎ ((e : E) × (r ≡ err e))
Result-cases (ok a) = inl (a, refl)
Result-cases (err e) = inr (e, refl)

-- The same inversions for a proof that goes on with the parts as variables.
pub bind_then {ℓ κ} :
    {E A B : Type ℓ} {C : Type κ} (m : Result E A) (f : A → Result E B) {b : B}
    → (m >>= f) ≡ ok b
    → ((a : A) → m ≡ ok a → f a ≡ ok b → C)
    → C
bind_then (ok a) f h k = k a refl h
bind_then (err e) f h k = absurd (cc)

pub reject_then {ℓ κ} :
    {E A : Type ℓ} {C : Type κ} (b : Bool) (e : E) (rest : Result E A) {a : A}
    → reject b e rest ≡ ok a
    → (b ≡ false → rest ≡ ok a → C)
    → C
reject_then true e rest h k = absurd (cc)
reject_then false e rest h k = k refl h

ok_or {ℓ} : {E A : Type ℓ} → A → Result E A → A
ok_or d (ok a) = a
ok_or d (err e) = d

pub ok-injective {ℓ} : {E A : Type ℓ} {a b : A} → ◌≡◌ {A = Result E A} (ok a) (ok b) → a ≡ b
unfolding ok_or
ok-injective {a = a} e = ap (ok_or a) e

err_or {ℓ} : {E A : Type ℓ} → E → Result E A → E
err_or d (ok a) = d
err_or d (err e) = e

pub err-injective {ℓ} : {E A : Type ℓ} {a b : E} → ◌≡◌ {A = Result E A} (err a) (err b) → a ≡ b
unfolding err_or
err-injective {a = a} e = ap (err_or a) e

-- Where the error of a chain comes from.
pub bind-eq-err {ℓ} :
    {E A B : Type ℓ} (m : Result E A) (f : A → Result E B) {e : E}
    → (m >>= f) ≡ err e
    → (m ≡ err e) ⊎ ((a : A) × (m ≡ ok a) × (f a ≡ err e))
bind-eq-err (ok a) f h = inr (a, refl, h)
bind-eq-err (err e) f h = inl (ap err (err-injective h))

pub reject-eq-err {ℓ} :
    {E A : Type ℓ} (b : Bool) (d : E) (rest : Result E A) {e : E}
    → reject b d rest ≡ err e
    → (d ≡ e) ⊎ (rest ≡ err e)
reject-eq-err true d rest h = inl (err-injective h)
reject-eq-err false d rest h = inr h
