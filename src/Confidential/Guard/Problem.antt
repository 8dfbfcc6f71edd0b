-- ===== src/Confidential/Guard/Problem.antt =====
-- internal/confidential/frame_guard.go: RoundTrip of guardingTransport, which wraps the body of a
-- response, and boundedReadCloser around a problem document. mime.ParseMediaType and
-- strings.EqualFold are parameters, and so are the media type that the EHBP library names and the
-- body, as in Guard.
pub mod Limit
use dappnode_nexus_sdk.Prelude.{
  ℕ, zero, suc, ◌+◌, ◌-◌, ◌≤◌, min, Bool, true, false, not, ◌&&◌, ◌||◌, Option, none, some, List,
  [], ◌∷◌, ◌++◌, ◌≡◌, refl, ap, ◌∙◌, sym, ◌≢◌, append-nil, append_assoc, arith, length,
  length-append, ltb, ◌==◌, if◌then◌else◌, is_empty, Bool-cases, inl, inr,
}
use mathlib.Core.Path.{subst}
use dappnode_nexus_sdk.Prelude.Bytes.{Bytes, bytes_eq}
use dappnode_nexus_sdk.Prelude.Hex.{hex_encode, hex_decode}
use dappnode_nexus_sdk.Prelude.Result.{Result, ok, err}
use dappnode_nexus_sdk.Confidential.Guard.{
  SourceError, end_of_file, failed, Reply, FrameGuard, frame_guard,
}
use dappnode_nexus_sdk.Confidential.Guard.Reader.{Reads, EndsRight}

abbrev pub max_problem_response_body : ℕ
max_problem_response_body = 65536

-- A decoded nonce is re-encoded and compared.
abbrev same_nonce : Bytes → Option Bytes → Bool
same_nonce encoded none = false
same_nonce encoded (some d) = length d == 32 && bytes_eq (hex_encode d) encoded

unfoldable pub canonical_response_nonce : Bytes → Bool
unfolding hex_encode hex_decode
canonical_response_nonce encoded =
    if not (length encoded == 64) then false else same_nonce encoded (hex_decode encoded)

pub record BoundedReader (S : Type 0) : Type 0 where
  pub source : S
  pub remaining : ℕ
  pub checked : Bool

pub data BoundedError : Type 0 where
  source : SourceError → BoundedError
  too_long : BoundedError

-- A response's body: as it came or behind the frame guard, and then behind boundedReadCloser.
pub data Framing (S : Type 0) : Type 0 where
  plain : S → Framing S
  framed : FrameGuard S → Framing S

pub data Body (S : Type 0) : Type 0 where
  unbounded : Framing S → Body S
  bounded : BoundedReader (Framing S) → Body S

pub record Response (B : Type 0) : Type 0 where
  pub status : ℕ
  pub nonces : List Bytes
  pub content_type : Bytes
  pub body : Option B

pub data TransportError : Type 0 where
  next_failed : Bytes → TransportError
  invalid_nonce : TransportError

abbrev bad_nonces : List Bytes → Bool
bad_nonces [] = false
bad_nonces (n ∷ []) = not (canonical_response_nonce n)
bad_nonces (n ∷ m ∷ ns) = true

module _ {S : Type 0} where
  abbrev pub bounded_reader : S → BoundedReader S
  bounded_reader s = record { source = s; remaining = max_problem_response_body; checked = false }

  abbrev guard_body : List Bytes → S → Framing S
  guard_body (n ∷ []) s = framed (frame_guard s)
  guard_body ns s = plain s

module _ {S : Type 0} where
  abbrev limit : Bool → Framing S → Body S
  limit true b = bounded (bounded_reader b)
  limit false b = unbounded b

module _ (parse_media_type : Bytes → Option Bytes) (equal_fold : Bytes → Bytes → Bool)
    (problem_json : Bytes) where
  abbrev media_type_is : Bytes → Option Bytes → Bool
  media_type_is expected none = false
  media_type_is expected (some t) = equal_fold t expected

  unfoldable pub is_media_type : Bytes → Bytes → Bool
  is_media_type value expected = media_type_is expected (parse_media_type value)

  abbrev is_problem : {S : Type 0} → Response S → Bool
  is_problem r = r.status == 422 && is_media_type r.content_type problem_json

  abbrev wrap : {S : Type 0} → Response S → Option S → Option (Body S)
  wrap r none = none
  wrap r (some s) = some (limit (is_problem r) (guard_body r.nonces s))

  -- RoundTrip, given what the next transport returned.
  unfoldable pub round_trip :
      {S : Type 0} → Result Bytes (Response S) → Result TransportError (Response (Body S))
  round_trip (err e) = err (next_failed e)
  round_trip (ok r) =
      if bad_nonces r.nonces
      then err invalid_nonce
      else ok (record {
        status = r.status;
        nonces = r.nonces;
        content_type = r.content_type;
        body = wrap r r.body;
      })

abbrev pub from_source : Option SourceError → Option BoundedError
from_source none = none
from_source (some e) = some (source e)

abbrev pub probed : Bytes → Option SourceError → Option BoundedError
probed [] e = from_source e
probed (x ∷ xs) e = some too_long

module _ {S : Type 0} where
  abbrev pub drain_bounded_after :
      (BoundedReader S → Bytes × Option BoundedError)
      → Bytes × Option BoundedError × BoundedReader S
      → Bytes × Option BoundedError
  drain_bounded_after next (out, some e, b) = (out, some e)
  drain_bounded_after next (out, none, b) = let (more, e) = next b in (out ++ more, e)

module _ {S : Type 0} (read : ℕ → S → Reply S) where
  abbrev pub read_front : ℕ → BoundedReader S → Bytes × Option BoundedError × BoundedReader S
  read_front size b =
      let r = read (min size b.remaining) b.source in
      (
        r.bytes,
        from_source r.error,
        record b { source = r.rest; remaining = b.remaining - length r.bytes },
      )

  abbrev pub read_probe : Bool → BoundedReader S → Bytes × Option BoundedError × BoundedReader S
  read_probe true b = ([], some too_long, b)
  read_probe false b =
      let r = read 1 b.source in
      ([], probed r.bytes r.error, record b { source = r.rest; checked = true })

  -- boundedReadCloser.Read with a destination of that size.
  unfoldable pub bounded_read : ℕ → BoundedReader S → Bytes × Option BoundedError × BoundedReader S
  bounded_read size b = if ltb 0 b.remaining then read_front size b else read_probe b.checked b

  -- Calls of Read with these sizes, up to the first error.
  unfoldable pub drain_bounded : List ℕ → BoundedReader S → Bytes × Option BoundedError
  drain_bounded [] b = ([], none)
  drain_bounded (n ∷ ns) b = drain_bounded_after (drain_bounded ns) (bounded_read n b)
