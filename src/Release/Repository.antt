-- ===== src/Release/Repository.antt =====
-- internal/release/source.go: NewSource and the repository names that it accepts. A name is read
-- byte by byte: a character outside ASCII has no byte that passes.
use dappnode_nexus_sdk.Prelude.{
  ℕ, zero, Bool, true, false, not, ◌&&◌, ◌||◌, Option, none, some, [], ◌∷◌, ltb, leb, ◌==◌,
  if◌then◌else◌, is_empty,
}
use dappnode_nexus_sdk.Prelude.Bytes.{Bytes, codes}
use dappnode_nexus_sdk.Prelude.Result.{Result, ok, reject}
use dappnode_nexus_sdk.Prelude.Time.{ℤ, pos, negsuc}
use dappnode_nexus_sdk.Attestation.Policy.{max_policy_releases}

abbrev default_repository : Bytes
default_repository = codes "dappnode/dappnode-nexus-gateway"

abbrev default_release_count : ℤ
default_release_count = pos 3

pub data NewSourceError : Type 0 where
  invalid_repository bad_count no_verifier : NewSourceError

unfoldable pub is_name_byte : ℕ → Bool
is_name_byte c =
    leb b'a' c && leb c b'z'
    || (leb b'A' c && leb c b'Z'
        || (leb b'0' c && leb c b'9' || (c == b'-' || (c == b'_' || c == b'.'))))

unfoldable pub all_name : Bytes → Bool
unfolding is_name_byte
all_name [] = true
all_name (c ∷ cs) = is_name_byte c && all_name cs

abbrev after_owner : ℕ → Option (Bytes × Bytes) → Option (Bytes × Bytes)
after_owner c none = none
after_owner c (some (owner, name)) = some (c ∷ owner, name)

-- strings.Cut(value, "/")
unfoldable pub cut_slash : Bytes → Option (Bytes × Bytes)
cut_slash [] = none
cut_slash (c ∷ cs) =
    let rest = cut_slash cs in if c == b'/' then some ([], cs) else after_owner c rest

-- strings.Contains(name, "/")
unfoldable pub has_slash : Bytes → Bool
has_slash [] = false
has_slash (c ∷ cs) = c == b'/' || has_slash cs

abbrev valid_parts : Option (Bytes × Bytes) → Bool
unfolding all_name has_slash
valid_parts none = false
valid_parts (some (owner, name)) =
    if is_empty owner || (is_empty name || has_slash name)
    then false
    else all_name owner && all_name name

unfoldable pub valid_repository : Bytes → Bool
unfolding cut_slash valid_parts
valid_repository value = valid_parts (cut_slash value)

abbrev or_default : Bytes → Bytes
or_default repository = if is_empty repository then default_repository else repository

abbrev count_or_default : ℤ → ℤ
count_or_default (pos zero) = default_release_count
count_or_default n = n

-- count < 1 || count > attestation.MaxPolicyReleases
abbrev bad_number : ℤ → Bool
bad_number (pos n) = ltb n 1 || ltb max_policy_releases n
bad_number (negsuc n) = true

-- NewSource: the repository and the count of the source; `verifier` says whether the embedded
-- trusted root made one.
unfoldable pub new_source : Bytes → ℤ → Bool → Result NewSourceError (Bytes × ℤ)
unfolding valid_repository
new_source repository count verifier =
    reject (not (valid_repository (or_default repository))) invalid_repository (
      reject (bad_number (count_or_default count)) bad_count
        (reject (not verifier) no_verifier (ok (or_default repository, count_or_default count))))
