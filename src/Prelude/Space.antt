-- ===== src/Prelude/Space.antt =====
-- bytes.TrimSpace: the white space of Unicode, in UTF-8, is taken off both ends.
use dappnode_nexus_sdk.Prelude.Tests.{leb, ◌==◌, if◌then◌else◌}
use dappnode_nexus_sdk.Prelude.Bytes.{Bytes}
use Prim.Native.Nat.{ℕ, zero, suc}
use mathlib.Core.Bool.{Bool, ◌&&◌, ◌||◌}
use mathlib.Core.List.{[], ◌∷◌, reverse}

-- '\t', '\n', '\v', '\f', '\r', ' '
unfoldable pub is_ascii_space : ℕ → Bool
is_ascii_space c = leb 9 c && leb c 13 || c == 32

-- U+0085 and U+00A0.
abbrev is_space2 : ℕ → ℕ → Bool
is_space2 a b = a == 0xc2 && (b == 0x85 || b == 0xa0)

-- U+1680, U+2000 to U+200A, U+2028, U+2029, U+202F, U+205F and U+3000.
abbrev is_space3 : ℕ → ℕ → ℕ → Bool
is_space3 a b c =
    a == 0xe1 && b == 0x9a && c == 0x80
    || a == 0xe2 && b == 0x80 && (leb 0x80 c && leb c 0x8a || c == 0xa8 || c == 0xa9 || c == 0xaf)
    || a == 0xe2 && b == 0x81 && c == 0x9f
    || a == 0xe3 && b == 0x80 && c == 0x80

-- The width of the space that a text begins with, or 0.
unfoldable pub leading_space : Bytes → ℕ
unfolding is_ascii_space
leading_space [] = 0
leading_space (a ∷ []) = if is_ascii_space a then 1 else 0
leading_space (a ∷ b ∷ []) = if is_ascii_space a then 1 else if is_space2 a b then 2 else 0
leading_space (a ∷ b ∷ c ∷ r) =
    if is_ascii_space a then 1 else if is_space2 a b then 2 else if is_space3 a b c then 3 else 0

-- The same of a text that is read backwards.
unfoldable pub trailing_space : Bytes → ℕ
unfolding is_ascii_space
trailing_space [] = 0
trailing_space (a ∷ []) = if is_ascii_space a then 1 else 0
trailing_space (a ∷ b ∷ []) = if is_ascii_space a then 1 else if is_space2 b a then 2 else 0
trailing_space (a ∷ b ∷ c ∷ r) =
    if is_ascii_space a then 1 else if is_space2 b a then 2 else if is_space3 c b a then 3 else 0

-- Spaces off the front, by a measure of the space at the front; `n` bytes of it are left to skip.
unfoldable pub skip_space : (Bytes → ℕ) → ℕ → Bytes → Bytes
skip_space width n [] = []
skip_space width (suc n) (c ∷ cs) = skip_space width n cs
skip_space width zero (c ∷ cs) = elim (width (c ∷ cs)) [
  | zero ↦ c ∷ cs
  | suc n ↦ skip_space width n cs
]

unfoldable pub trim_space : Bytes → Bytes
unfolding skip_space leading_space trailing_space
trim_space b = reverse (skip_space trailing_space 0 (reverse (skip_space leading_space 0 b)))
