-- ===== src/Attestation/Verifier/Measured.antt =====
-- The comparison of the attested measurements with one release's (internal/attestation/verifier.go,
-- validate).
use mathlib.Core.Path.{subst}
use dappnode_nexus_sdk.Prelude.{
  ℕ, ◌≡◌, ◌↔◌, refl, ap, sym, false, not, ◌||◌, Option, none, some, List, [], ◌∷◌, ◌==◌, length,
  arith, passed_eq, passes_eq, passed_left, passed_right,
}
use dappnode_nexus_sdk.Prelude.Bytes.{Bytes, bytes_eq, passed_bytes_eq, passes_bytes_eq}
use dappnode_nexus_sdk.Prelude.Result.{ok, reject, reject_then, bind_then, ok-injective}
use dappnode_nexus_sdk.Attestation.Policy.{Release, all_zero, pcr_at, pcr_bytes}
use dappnode_nexus_sdk.Attestation.Verifier.Types.{NitroDocument, pcr_missing, pcr_mismatch}
use dappnode_nexus_sdk.Attestation.Verifier.{check_pcr, check_pcrs, or_empty}

-- The document's measurement with index `i` is `a`: 48 bytes, not all zero, the release's own.
pub record Agrees (i : ℕ) (rel : Release) (o : Option Bytes) (a : Bytes) : Type 0 where
  pub attested : o ≡ some a
  pub size : length a ≡ pcr_bytes
  pub nonzero : all_zero a ≡ false
  pub pinned : a ≡ or_empty (pcr_at i rel.pcrs)

check_pcr_sound :
    (i : ℕ) (rel : Release) (o : Option Bytes) (a : Bytes)
    → check_pcr i rel o ≡ ok a
    → Agrees i rel o a
check_pcr_sound i rel none a h = absurd (ground arith)
check_pcr_sound i rel (some b) a h =
    reject_then (not (length b == pcr_bytes) || all_zero b) (pcr_missing i)
      (reject (not (bytes_eq b (or_empty (pcr_at i rel.pcrs)))) (pcr_mismatch i rel.source_revision)
        (ok b))
      h
      λ x h.
        reject_then (not (bytes_eq b (or_empty (pcr_at i rel.pcrs))))
          (pcr_mismatch i rel.source_revision) (ok b) h
          λ y done. subst (Agrees i rel (some b)) (ok-injective done) (record {
            attested = refl;
            size = passed_eq _ _ (passed_left _ _ x);
            nonzero = passed_right _ _ x;
            pinned = passed_bytes_eq _ _ y;
          })

check_pcr_complete :
    (i : ℕ) (rel : Release) (o : Option Bytes) (a : Bytes)
    → Agrees i rel o a
    → check_pcr i rel o ≡ ok a
check_pcr_complete i rel o a g =
    simp (g.attested, passes_eq _ _ g.size, g.nonzero, passes_bytes_eq _ _ g.pinned)

-- All three measurements agree with the one release, and are what is retained.
pub record Measured (rel : Release) (doc : NitroDocument) (pcrs : List (ℕ × Bytes)) : Type 0 where
  pub at0 : Bytes
  pub at1 : Bytes
  pub at2 : Bytes
  pub pcr0 : Agrees 0 rel (pcr_at 0 doc.pcrs) at0
  pub pcr1 : Agrees 1 rel (pcr_at 1 doc.pcrs) at1
  pub pcr2 : Agrees 2 rel (pcr_at 2 doc.pcrs) at2
  pub retained : pcrs ≡ (0, at0) ∷ (1, at1) ∷ (2, at2) ∷ []

module _ (rel : Release) (doc : NitroDocument) (pcrs : List (ℕ × Bytes)) where
  check_pcrs_sound : check_pcrs rel doc ≡ ok pcrs → Measured rel doc pcrs
  unfolding check_pcrs
  check_pcrs_sound h = bind_then (check_pcr 0 rel (pcr_at 0 doc.pcrs)) _ h λ a ha h.
      bind_then (check_pcr 1 rel (pcr_at 1 doc.pcrs)) _ h λ b hb h.
        bind_then (check_pcr 2 rel (pcr_at 2 doc.pcrs)) _ h λ c hc done. record {
          at0 = a;
          at1 = b;
          at2 = c;
          pcr0 = check_pcr_sound 0 rel _ a ha;
          pcr1 = check_pcr_sound 1 rel _ b hb;
          pcr2 = check_pcr_sound 2 rel _ c hc;
          retained = sym (ok-injective done);
        }

  check_pcrs_complete : Measured rel doc pcrs → check_pcrs rel doc ≡ ok pcrs
  unfolding check_pcrs
  check_pcrs_complete m =
      simp
        (
          check_pcr_complete 0 rel _ m.at0 m.pcr0,
          check_pcr_complete 1 rel _ m.at1 m.pcr1,
          check_pcr_complete 2 rel _ m.at2 m.pcr2,
        )
        (ap ok (sym m.retained))

  pub check_pcrs_iff : (check_pcrs rel doc ≡ ok pcrs) ↔ Measured rel doc pcrs
  check_pcrs_iff = (check_pcrs_sound, check_pcrs_complete)
