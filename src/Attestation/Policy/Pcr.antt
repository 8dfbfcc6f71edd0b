-- ===== src/Attestation/Policy/Pcr.antt =====
-- Measurements and revisions that validation accepts (internal/attestation/policy.go).
use mathlib.Core.Option.{some-injective}
use dappnode_nexus_sdk.Prelude.{
  ℕ, ◌*◌, ◌≡◌, ◌↔◌, refl, ap, sym, ◌∙◌, true, false, Option, none, some, [], ◌∷◌, arith, length,
  All, passed_eq,
}
use dappnode_nexus_sdk.Prelude.Bytes.{Bytes, AreBytes, bytes_eq_iff, bytes_eq_refl}
use dappnode_nexus_sdk.Prelude.Hex.{hex_encode, hex_decode}
use dappnode_nexus_sdk.Prelude.Hex.Laws.{
  hex_decode-hex_encode, length-hex_encode, hex_decode-AreBytes,
}
use dappnode_nexus_sdk.Prelude.Result.{ok, reject-eq-ok}
use dappnode_nexus_sdk.Attestation.Policy.{
  decode_pcr, check_canonical, all_zero, combine, pcr_bytes,
}

-- `encoded` is the canonical text of the measurement `d`: 48 bytes, not all zero.
pub record IsMeasurement (encoded d : Bytes) : Type 0 where
  pub canonical : encoded ≡ hex_encode d
  pub are_bytes : AreBytes d
  pub size : length d ≡ pcr_bytes
  pub nonzero : all_zero d ≡ false

check_canonical-ok :
    (i : ℕ) (encoded : Bytes) (o : Option Bytes) {d : Bytes}
    → check_canonical i encoded o ≡ ok d
    → (o ≡ some d) × (hex_encode d ≡ encoded) × (all_zero d ≡ false)
check_canonical-ok i encoded none h = absurd (ground arith)
check_canonical-ok i encoded (some e) h = ground (arith, bytes_eq_iff (hex_encode e) encoded)

decode_pcr_sound :
    (i : ℕ) (encoded d : Bytes) → decode_pcr i encoded ≡ ok d → IsMeasurement encoded d
unfolding decode_pcr
decode_pcr_sound i encoded d h =
    let (size, rest) = reject-eq-ok _ _ _ h in
    let (decoded, canonical, nonzero) = check_canonical-ok i encoded (hex_decode encoded) rest in
    record {
      canonical = sym canonical;
      are_bytes = hex_decode-AreBytes encoded decoded;
      size = omega (arith, passed_eq _ _ size, ap length canonical, length-hex_encode d);
      nonzero = nonzero;
    }

decode_pcr_complete :
    (i : ℕ) (encoded d : Bytes) → IsMeasurement encoded d → decode_pcr i encoded ≡ ok d
unfolding decode_pcr
decode_pcr_complete i encoded d m =
    let sized : length (hex_encode d) ≡ pcr_bytes * 2 =
      omega (arith, length-hex_encode d, m.size) in
    rw
      (
        m.canonical,
        sized,
        hex_decode-hex_encode d m.are_bytes,
        bytes_eq_refl (hex_encode d),
        m.nonzero,
      )
      refl

-- decodePCR accepts exactly the canonical texts of measurements, and gives the measurement.
pub decode_pcr_iff :
    (i : ℕ) (encoded d : Bytes) → (decode_pcr i encoded ≡ ok d) ↔ IsMeasurement encoded d
decode_pcr_iff i encoded d = (decode_pcr_sound i encoded d, decode_pcr_complete i encoded d)

combine_zeros : (bs : Bytes) → All (λ b. b ≡ 0) bs → combine 0 bs ≡ 0
unfolding combine
combine_zeros [] h = refl
combine_zeros (b ∷ bs) (h, hs) = rw h (combine_zeros bs hs)

-- Zeros alone are all zero: no such measurement is accepted.
pub all_zero_zeros : (bs : Bytes) → All (λ b. b ≡ 0) bs → all_zero bs ≡ true
unfolding all_zero
all_zero_zeros bs h = rw (combine_zeros bs h) refl

IsMeasurement-unique :
    {encoded a b : Bytes} → IsMeasurement encoded a → IsMeasurement encoded b → a ≡ b
IsMeasurement-unique {encoded} {a} {b} m n = some-injective a b (
    sym (hex_decode-hex_encode a m.are_bytes)
    ∙ ap hex_decode (sym m.canonical ∙ n.canonical)
    ∙ hex_decode-hex_encode b n.are_bytes)
