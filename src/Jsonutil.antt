-- ===== src/Jsonutil.antt =====
-- internal/jsonutil/json.go: strict decoding and bounded reading. encoding/json is a parameter:
-- `first` decodes one value and gives the rest of the input, `second` tells what the rest holds.
use dappnode_nexus_sdk.Prelude.{
  ℕ, zero, suc, ap, ◌+◌, ◌-◌, ◌^◌, ◌<◌, ◌≤◌, ◌≡◌, refl, ◌↔◌, Bool, false, ◌&&◌, Option, none, some,
  List, [], ◌∷◌, arith, ltb, ◌==◌, if◌then◌else◌, length, take, Bool-cases, inl, inr, length-take,
}
use dappnode_nexus_sdk.Prelude.Bytes.{Bytes}
use dappnode_nexus_sdk.Prelude.Result.{Result, ok, err}
use dappnode_nexus_sdk.Prelude.Time.{ℤ, pos, negsuc}

-- The second call of Decode: io.EOF, another value, or another error.
pub data Extra : Type 0 where
  at_end another_value malformed : Extra

abbrev pub check_extra {ℓ} : {A : Type ℓ} → A → Extra → Option A
check_extra a at_end = some a
check_extra a another_value = none
check_extra a malformed = none

-- DecodeStrict; its errors are told apart by no caller.
unfoldable pub decode_strict {ℓ} :
    {A : Type ℓ} → (Bytes → Option (A × Bytes)) → (Bytes → Extra) → Bytes → Option A
decode_strict first second b = elim (first b) [
  | none ↦ none
  | some (a, rest) ↦ check_extra a (second rest)
]

-- A reader that gives `bytes` and then fails, or ends if `failure` is false.
pub record Reader : Type 0 where
  pub bytes : Bytes
  pub failure : Bool

pub data ReadLimitError : Type 0 where
  negative_limit read_failed too_large : ReadLimitError

-- io.ReadAll(io.LimitReader(reader, n)): the limit ends the input before a failure behind it.
unfoldable pub read_limited : Reader → ℕ → Option Bytes
read_limited r n = if ltb (length r.bytes) n && r.failure then none else some (take n r.bytes)

abbrev pub within_limit : ℕ → Option Bytes → Result ReadLimitError Bytes
within_limit limit none = err read_failed
within_limit limit (some b) = if ltb limit (length b) then err too_large else ok b

-- limit + 1 as an int64; what wraps round is negative, which io.LimitReader takes as 0.
abbrev pub max_int64 : ℕ
max_int64 = 2 ^ 63 - 1

unfoldable pub int64_suc : ℕ → ℕ
int64_suc limit = if limit == max_int64 then 0 else limit + 1

unfoldable pub read_all_limited : Reader → ℤ → Result ReadLimitError Bytes
unfolding read_limited int64_suc
read_all_limited r (negsuc n) = err negative_limit
read_all_limited r (pos limit) = within_limit limit (read_limited r (int64_suc limit))

take_all {ℓ} : {A : Type ℓ} (n : ℕ) (xs : List A) → length xs ≤ n → take n xs ≡ xs
take_all zero [] h = refl
take_all zero (x ∷ xs) h = absurd (omega arith)
take_all (suc n) [] h = refl
take_all (suc n) (x ∷ xs) h = ap (◌∷◌ x) (take_all n xs (omega arith))

int64_suc_lem : (limit : ℕ) → limit < max_int64 → int64_suc limit ≡ limit + 1
unfolding int64_suc
int64_suc_lem limit h = ground arith

-- With a limit below the largest int64, ReadAllLimited succeeds exactly when the reader ends without
-- failing within the limit, and then gives all that was there: it never truncates.
pub read_all_limited_iff :
    (r : Reader) (limit : ℕ) (b : Bytes)
    → limit < max_int64
    → (read_all_limited r (pos limit) ≡ ok b)
      ↔ ((r.bytes ≡ b) × (length b ≤ limit) × (r.failure ≡ false))
unfolding read_all_limited
read_all_limited_iff r limit b small_limit =
    rw (int64_suc_lem limit small_limit) (elim (Bool-cases (ltb limit (length r.bytes))) [
      | inl big ↦ (
        λ h. absurd (ground (arith, length-take (limit + 1) r.bytes)),
        λ h. absurd (ground arith),
      )
      | inr small ↦ (
        λ h. ground (arith, take_all (limit + 1) r.bytes),
        λ h. ground (arith, take_all (limit + 1) r.bytes),
      )
    ])

abbrev last_byte : ℕ → Bytes → ℕ
last_byte c [] = c
last_byte c (d ∷ b) = last_byte d b

-- IsJSONObject: `valid` is json.Valid.
unfoldable pub is_json_object : (Bytes → Bool) → Bytes → Bool
is_json_object valid [] = false
is_json_object valid (c ∷ []) = false
is_json_object valid (c ∷ d ∷ b) = c == b'{' && last_byte d b == b'}' && valid (c ∷ d ∷ b)
