-- ===== src/Prelude/Hex/Laws.antt =====
-- Laws of hexadecimal encoding.
use dappnode_nexus_sdk.Prelude.Lists.{length}
use dappnode_nexus_sdk.Prelude.Bytes.{Bytes, AreBytes}
use dappnode_nexus_sdk.Prelude.Hex.{hex_digit, hex_encode, hex_value, hex_decode, join}
use Prim.Native.Nat.{ℕ, ◌*◌, ◌/◌, ◌%◌, ◌<◌}
use mathlib.Core.Path.{◌≡◌, refl, subst}
use mathlib.Core.List.{[], ◌∷◌}
use mathlib.Core.Option.{Option, none, some, some-injective}
use native.Mathlib.Omega.{arith}

hex_value-hex_digit : (d : ℕ) → d < 16 → hex_value (hex_digit d) ≡ some d
unfolding hex_value hex_digit
hex_value-hex_digit d h = ground arith

hex_value-lt : (c : ℕ) {d : ℕ} → hex_value c ≡ some d → d < 16
unfolding hex_value
hex_value-lt c h = ground arith

join-bytes : (b : ℕ) (bs : Bytes) → join (some (b / 16)) (some (b % 16)) (some bs) ≡ some (b ∷ bs)
join-bytes b bs = ground arith

-- DecodeString undoes EncodeToString.
pub hex_decode-hex_encode : (b : Bytes) → AreBytes b → hex_decode (hex_encode b) ≡ some b
unfolding hex_decode hex_encode
hex_decode-hex_encode [] h = refl
hex_decode-hex_encode (b ∷ bs) (h, hs) = cc (
  hex_value-hex_digit (b / 16) (omega arith),
  hex_value-hex_digit (b % 16) (omega arith),
  hex_decode-hex_encode bs hs,
  join-bytes b bs,
)

pub length-hex_encode : (b : Bytes) → length (hex_encode b) ≡ 2 * length b
unfolding hex_encode
length-hex_encode [] = refl
length-hex_encode (b ∷ bs) = omega (arith, length-hex_encode bs)

join-AreBytes :
    (h l : Option ℕ) (t : Option Bytes) {b : Bytes}
    → ((x : ℕ) → h ≡ some x → x < 16)
    → ((x : ℕ) → l ≡ some x → x < 16)
    → ((bs : Bytes) → t ≡ some bs → AreBytes bs)
    → join h l t ≡ some b
    → AreBytes b
join-AreBytes (some x) (some y) (some bs) hx hy hb e =
    subst AreBytes (some-injective _ _ e) (omega (arith, hx x refl, hy y refl), hb bs refl)
join-AreBytes none l t hx hy hb e = cc
join-AreBytes (some x) none t hx hy hb e = cc
join-AreBytes (some x) (some y) none hx hy hb e = cc

-- What DecodeString gives are bytes.
pub hex_decode-AreBytes : (s : Bytes) {b : Bytes} → hex_decode s ≡ some b → AreBytes b
unfolding hex_decode
hex_decode-AreBytes [] e = subst AreBytes (some-injective _ _ e) tt
hex_decode-AreBytes (x ∷ []) e = cc
hex_decode-AreBytes (x ∷ y ∷ r) e =
    join-AreBytes (hex_value x) (hex_value y) (hex_decode r) (λ d. hex_value-lt x)
      (λ d. hex_value-lt y) (λ bs. hex_decode-AreBytes r) e
