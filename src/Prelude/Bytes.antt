-- ===== src/Prelude/Bytes.antt =====
-- Go strings and byte slices are lists of numbers below 256; their equality is a test.
use Prim.Native.Char.{code}
use dappnode_nexus_sdk.Prelude.Tests.{◌==◌}
use dappnode_nexus_sdk.Prelude.Lists.{All}
use Prim.Native.Nat.{ℕ, ◌<◌}
use Prim.Native.String.{String}
use mathlib.Core.Path.{◌≡◌, refl}
use mathlib.Core.Logic.{◌≢◌, ◌↔◌}
use mathlib.Core.Bool.{Bool, true, false, not, ◌&&◌}
use mathlib.Core.List.{List, [], ◌∷◌}
use native.Mathlib.Omega.{arith}

abbrev pub Bytes : Type 0
Bytes = List ℕ

-- The bytes of an ASCII literal.
abbrev pub codes : String → Bytes
codes String.[] = []
codes (String.◌∷◌ c s) = code c ∷ codes s

abbrev pub AreBytes : Bytes → Type 0
AreBytes = All (λ b. b < 256)

-- `==` on strings, bytes.Equal, and subtle.ConstantTimeCompare(a, b) == 1.
unfoldable pub bytes_eq : Bytes → Bytes → Bool
bytes_eq [] [] = true
bytes_eq [] (y ∷ ys) = false
bytes_eq (x ∷ xs) [] = false
bytes_eq (x ∷ xs) (y ∷ ys) = x == y && bytes_eq xs ys

pub bytes_eq_refl : (xs : Bytes) → bytes_eq xs xs ≡ true
unfolding bytes_eq
bytes_eq_refl [] = refl
bytes_eq_refl (x ∷ xs) = ground (arith, bytes_eq_refl xs)

bytes_eq_sound : (xs ys : Bytes) → bytes_eq xs ys ≡ true → xs ≡ ys
unfolding bytes_eq
bytes_eq_sound [] [] h = refl
bytes_eq_sound [] (y ∷ ys) h = cc
bytes_eq_sound (x ∷ xs) [] h = cc
bytes_eq_sound (x ∷ xs) (y ∷ ys) h = ground (arith, bytes_eq_sound xs ys)

pub bytes_eq_iff : (xs ys : Bytes) → (bytes_eq xs ys ≡ true) ↔ (xs ≡ ys)
bytes_eq_iff xs ys = (bytes_eq_sound xs ys, λ e. rw e (bytes_eq_refl ys))

-- A guard on two texts that was passed.
pub passed_bytes_eq : (a b : Bytes) → not (bytes_eq a b) ≡ false → a ≡ b
passed_bytes_eq a b h = ground (arith, bytes_eq_iff a b)

pub bytes_ne : (a b : Bytes) → bytes_eq a b ≡ false → a ≢ b
bytes_ne a b h e = ground (arith, bytes_eq_iff a b)

pub passes_bytes_eq : (a b : Bytes) → a ≡ b → not (bytes_eq a b) ≡ false
passes_bytes_eq a b h = ground (arith, bytes_eq_iff a b)
