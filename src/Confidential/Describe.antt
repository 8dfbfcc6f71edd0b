-- ===== src/Confidential/Describe.antt =====
-- internal/confidential/describe.go: the ledger record of verified evidence.
use dappnode_nexus_sdk.Prelude.{
  ℕ, zero, suc, ◌+◌, ◌-◌, ◌*◌, ◌/◌, ◌%◌, Bool, true, ◌&&◌, Option, none, some, List, [], ◌∷◌, ◌++◌,
  ltb, leb, ◌==◌, if◌then◌else◌, length, take,
}
use dappnode_nexus_sdk.Prelude.Bytes.{Bytes, codes}
use dappnode_nexus_sdk.Prelude.Hex.{hex_encode}
use dappnode_nexus_sdk.Prelude.Time.{Time, Duration, pos, negsuc, minute, second, neg, sub, is_neg}
use dappnode_nexus_sdk.Attestation.Policy.{pcr_at}
use dappnode_nexus_sdk.Attestation.Verifier.Types.{Evidence}
use dappnode_nexus_sdk.Ledger.{Check, no_attestation}
use dappnode_nexus_sdk.Ledger

-- The decimal digits of a number below 10 ^ fuel.
unfoldable pub digits : ℕ → ℕ → Bytes
digits zero n = []
digits (suc fuel) n =
    let high = digits fuel (n / 10) in
    if ltb n 10 then (b'0' + n) ∷ [] else high ++ (b'0' + n % 10) ∷ []

-- %d at an int: 2 ^ 63 has 19 digits.
unfoldable pub print_int : Duration → Bytes
unfolding digits
print_int (pos n) = digits 20 n
print_int (negsuc n) = codes "-" ++ digits 20 (suc n)

-- d.Round(time.Second), with halves away from zero.
abbrev pub round_magnitude : ℕ → ℕ
round_magnitude n =
    if ltb (n % second + n % second) second then n - n % second else n + (second - n % second)

unfoldable pub round_second : Duration → Duration
round_second (pos n) = pos (round_magnitude n)
round_second (negsuc n) = neg (pos (round_magnitude (suc n)))

-- d / time.Second, which Go takes towards zero.
abbrev pub in_seconds : Duration → Duration
in_seconds (pos n) = pos (n / second)
in_seconds (negsuc n) = neg (pos (suc n / second))

abbrev pub whole_minutes : Duration → Option ℕ
whole_minutes (pos n) = if leb minute n && n % minute == 0 then some (n / minute) else none
whole_minutes (negsuc n) = none

print_minutes : Duration → Option ℕ → Bytes
unfolding print_int
print_minutes d none = print_int (in_seconds d) ++ codes " seconds"
print_minutes d (some m) =
    if m == 1 then codes "1 minute" else print_int (pos m) ++ codes " minutes"

unfoldable pub human_duration : Duration → Bytes
unfolding print_minutes round_second
human_duration d = print_minutes (round_second d) (whole_minutes (round_second d))

abbrev pub under_five_seconds : Duration → Bool
under_five_seconds (pos n) = ltb n (5 * second)
under_five_seconds (negsuc n) = true

unfoldable pub signed_ago : Duration → Bytes
unfolding human_duration
signed_ago age =
    if under_five_seconds age
    then codes "Signed just now"
    else codes "Signed " ++ human_duration age ++ codes " before it was checked"

-- The ellipsis is three bytes of UTF-8.
abbrev pub ellipsis : Bytes
ellipsis = 226 ∷ 128 ∷ 166 ∷ []

unfoldable pub short : Bytes → Bytes
short value = if leb (length value) 16 then value else take 16 value ++ ellipsis

-- A missing key of the map of measurements gives nil.
abbrev pub pcr_or_nil : Option Bytes → Bytes
pcr_or_nil none = []
pcr_or_nil (some b) = b

abbrev pub passing : Bytes → Bytes → Check
passing name detail = record { name = name; passed = true; detail = detail }

unfoldable pub describe_checks : Duration → Evidence → List Check
unfolding signed_ago human_duration short
describe_checks age ev =
    passing (codes "Hardware signature") (
      codes "Signed by the TEE's hardware security module (AWS Nitro), module "
      ++ ev.proof.module_id
      ++ codes ". Only real hardware can produce this signature.")
    ∷ passing (codes "AWS certificate chain") (
        codes "The signing certificate chains to the AWS Nitro root CA, SHA-256 "
        ++ short ev.proof.root_fingerprint
        ++ codes ".")
    ∷ passing (codes "Freshness: this proxy's nonce") (
        codes
          "The TEE signed the random 32-byte challenge this proxy generated, so the evidence cannot be a replay of an older attestation.")
    ∷ passing (codes "Fresh proof") (
        signed_ago age
        ++ codes ". Proofs older than "
        ++ human_duration (sub ev.expires_at ev.attested_at)
        ++ codes " are refused, so an old one can't be reused.")
    ∷ passing (codes "Code measurements PCR0, PCR1, PCR2") (
        codes
          "The measurements of the software running in the TEE match, byte for byte, the ones Dappnode signed for this Gateway release. Different code produces different measurements.")
    ∷ passing (codes "Signed workload manifest") (
        codes
          "The TEE's signed user_data equals SHA-384 of its manifest, so the manifest below is covered by the hardware signature.")
    ∷ passing (codes "Gateway source revision") (
        codes "The manifest declares source revision "
        ++ ev.proof.source_revision
        ++ codes ", which is the revision this proxy is willing to trust.")
    ∷ passing (codes "Encryption contract") (
        codes "The manifest declares "
        ++ ev.proof.e2ee.protocol
        ++ codes " over "
        ++ ev.proof.e2ee.suite
        ++ codes " on "
        ++ ev.proof.e2ee.endpoint
        ++ codes ", with both request and response bodies encrypted.")
    ∷ passing (codes "Key binding") (
        codes
          "The X25519 public key your request bodies are encrypted to is carried inside the signed document. Its private half exists only inside the TEE, so nothing in between can read them.")
    ∷ []

-- `if age < 0 { age = 0 }`
abbrev pub clamped : Duration → Duration
clamped d = if is_neg d then pos 0 else d

-- The evidence itself, the second and the third result, is that of ev.proof.
unfoldable pub describe_evidence : Bytes → Evidence → Time → Ledger.Attestation
unfolding describe_checks round_second hex_encode
describe_evidence id ev verified_at = record no_attestation {
  id = id;
  verified_at = verified_at;
  attested_at = ev.attested_at;
  expires_at = ev.expires_at;
  module_id = ev.proof.module_id;
  hpke_public_key = hex_encode ev.public_key;
  nonce = hex_encode ev.proof.nonce;
  pcr0 = hex_encode (pcr_or_nil (pcr_at 0 ev.proof.pcrs));
  pcr1 = hex_encode (pcr_or_nil (pcr_at 1 ev.proof.pcrs));
  pcr2 = hex_encode (pcr_or_nil (pcr_at 2 ev.proof.pcrs));
  source_revision = ev.proof.source_revision;
  workload = ev.proof.workload;
  profile = ev.proof.profile;
  root_fingerprint = ev.proof.root_fingerprint;
  checks = describe_checks (clamped (round_second (sub verified_at ev.attested_at))) ev;
}
