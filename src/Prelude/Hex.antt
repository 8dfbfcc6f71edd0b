-- ===== src/Prelude/Hex.antt =====
-- encoding/hex: EncodeToString and DecodeString.
pub mod Laws
use dappnode_nexus_sdk.Prelude.Tests.{ltb, leb, if◌then◌else◌}
use dappnode_nexus_sdk.Prelude.Bytes.{Bytes}
use Prim.Native.Nat.{ℕ, ◌+◌, ◌-◌, ◌*◌, ◌/◌, ◌%◌}
use mathlib.Core.Bool.{◌&&◌}
use mathlib.Core.List.{[], ◌∷◌}
use mathlib.Core.Option.{Option, none, some}

-- "0123456789abcdef"[d]
unfoldable pub hex_digit : ℕ → ℕ
hex_digit d = if ltb d 10 then b'0' + d else b'a' + (d - 10)

unfoldable pub hex_encode : Bytes → Bytes
unfolding hex_digit
hex_encode [] = []
hex_encode (b ∷ bs) = hex_digit (b / 16) ∷ hex_digit (b % 16) ∷ hex_encode bs

unfoldable pub hex_value : ℕ → Option ℕ
hex_value c =
    if leb b'0' c && leb c b'9'
    then some (c - b'0')
    else if leb b'a' c && leb c b'f'
    then some (c - b'a' + 10)
    else if leb b'A' c && leb c b'F'
    then some (c - b'A' + 10)
    else none

abbrev join : Option ℕ → Option ℕ → Option Bytes → Option Bytes
join (some h) (some l) (some bs) = some ((h * 16 + l) ∷ bs)
join _ _ _ = none

-- `none` where DecodeString returns an error: a bad digit or an odd length.
unfoldable pub hex_decode : Bytes → Option Bytes
unfolding hex_value
hex_decode [] = some []
hex_decode (a ∷ []) = none
hex_decode (a ∷ b ∷ r) = join (hex_value a) (hex_value b) (hex_decode r)
