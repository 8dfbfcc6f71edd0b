-- ===== src/Attestation/Verifier/Window.antt =====
-- The time window of the evidence (internal/attestation/verifier.go, validate).
use dappnode_nexus_sdk.Prelude.{◌≤◌, ◌≡◌, ◌↔◌, ap, sym, ltb, arith, passed_ltb, passes_ltb}
use dappnode_nexus_sdk.Prelude.Result.{ok, reject_then, ok-injective}
use dappnode_nexus_sdk.Prelude.Time.{Time, add, neg, unix_milli}
use dappnode_nexus_sdk.Attestation.Verifier.Types.{NitroDocument, Verifier}
use dappnode_nexus_sdk.Jsonutil.{max_int64}
use dappnode_nexus_sdk.Attestation.Verifier.{check_time}

-- The document was signed at `attested`, at most the maximum age ago and at most the permitted skew
-- in the future.
pub record IsFresh (v : Verifier) (now : Time) (doc : NitroDocument) (attested : Time)
    : Type 0 where
  pub in_range : doc.timestamp ≤ max_int64
  pub signed_at : attested ≡ unix_milli doc.timestamp
  pub not_future : attested ≤ add now v.max_future_skew
  pub not_stale : add now (neg v.max_age) ≤ attested

module _ (v : Verifier) (now : Time) (doc : NitroDocument) (attested : Time) where
  check_time_sound : check_time v now doc ≡ ok attested → IsFresh v now doc attested
  unfolding check_time
  check_time_sound h = reject_then (ltb max_int64 doc.timestamp) _ _ h λ a h.
      reject_then (ltb (add now v.max_future_skew) (unix_milli doc.timestamp)) _ _ h λ b h.
        reject_then (ltb (unix_milli doc.timestamp) (add now (neg v.max_age))) _ _ h λ c done.
          let e : unix_milli doc.timestamp ≡ attested = ok-injective done in
          record {
            in_range = passed_ltb _ _ a;
            signed_at = sym e;
            not_future = omega (arith, passed_ltb _ _ b, e);
            not_stale = omega (arith, passed_ltb _ _ c, e);
          }

  check_time_complete : IsFresh v now doc attested → check_time v now doc ≡ ok attested
  unfolding check_time
  check_time_complete f =
      let e = sym f.signed_at in
      rw
        (
          passes_ltb max_int64 doc.timestamp f.in_range,
          passes_ltb (add now v.max_future_skew) (unix_milli doc.timestamp)
              (omega (arith, e, f.not_future)),
          passes_ltb (unix_milli doc.timestamp) (add now (neg v.max_age))
              (omega (arith, e, f.not_stale)),
        )
        (ap ok e)

  pub check_time_iff : (check_time v now doc ≡ ok attested) ↔ IsFresh v now doc attested
  check_time_iff = (check_time_sound, check_time_complete)
