-- ===== src/Attestation/Verifier/Signed.antt =====
-- The checks on the signed document (internal/attestation/verifier.go, validate).
use mathlib.Core.Path.{subst}
use dappnode_nexus_sdk.Prelude.{
  ◌≡◌, ◌∙◌, refl, ap, true, false, not, ◌||◌, Option, none, some, ◌==◌, length, arith, passed_eq,
  passes_eq, passed_not, passes_not, passed_left, passed_right,
}
use dappnode_nexus_sdk.Prelude.Bytes.{Bytes, bytes_eq, passed_bytes_eq, passes_bytes_eq}
use dappnode_nexus_sdk.Prelude.Result.{ok, reject_then, bind_then, ok-injective}
use dappnode_nexus_sdk.Attestation.Policy.{all_zero}
use dappnode_nexus_sdk.Attestation.Verifier.Types.{
  NitroDocument, NitroResult, expected_root_fingerprint, nonce_bytes, hpke_key_bytes, sha384_bytes,
}
use dappnode_nexus_sdk.Attestation.Verifier.{
  check_contents, check_present, check_result, check_document,
}

-- The result is valid, under the AWS root, and signs this nonce, this digest and this key.
pub record Signs (digest nonce key : Bytes) (r : NitroResult) (doc : NitroDocument) : Type 0 where
  pub valid : r.valid ≡ true
  pub trusted : r.chain_trusted ≡ true
  pub root : r.root_fingerprint ≡ expected_root_fingerprint
  pub decoded : r.document ≡ some doc
  pub nonce_is : r.nonce ≡ nonce
  pub nonce_size : length r.nonce ≡ nonce_bytes
  pub digest_is : r.user_data ≡ digest
  pub digest_size : length r.user_data ≡ sha384_bytes
  pub key_size : length r.public_key ≡ hpke_key_bytes
  pub key_nonzero : all_zero r.public_key ≡ false
  pub key_is : r.public_key ≡ key

module _ (digest nonce key : Bytes) (r : NitroResult) (doc : NitroDocument) where
  contents_sound :
      (o : NitroDocument)
      → r.document ≡ some o
      → r.valid ≡ true
      → r.chain_trusted ≡ true
      → r.root_fingerprint ≡ expected_root_fingerprint
      → check_contents digest nonce key r o ≡ ok doc
      → Signs digest nonce key r doc
  unfolding check_contents
  contents_sound o decoded valid trusted root h =
      reject_then (not (bytes_eq r.nonce nonce) || not (length r.nonce == nonce_bytes)) _ _ h λ a h.
        reject_then (not (bytes_eq r.user_data digest) || not (length r.user_data == sha384_bytes))
          _ _ h
          λ b h.
            reject_then (not (length r.public_key == hpke_key_bytes) || all_zero r.public_key) _ _ h
              λ c h. reject_then (not (bytes_eq r.public_key key)) _ _ h λ e done. record {
                valid = valid;
                trusted = trusted;
                root = root;
                decoded = decoded ∙ ap some (ok-injective done);
                nonce_is = passed_bytes_eq _ _ (passed_left _ _ a);
                nonce_size = passed_eq _ _ (passed_right _ _ a);
                digest_is = passed_bytes_eq _ _ (passed_left _ _ b);
                digest_size = passed_eq _ _ (passed_right _ _ b);
                key_size = passed_eq _ _ (passed_left _ _ c);
                key_nonzero = passed_right _ _ c;
                key_is = passed_bytes_eq _ _ e;
              }

  present_sound :
      (p : Option NitroDocument)
      → r.document ≡ p
      → r.valid ≡ true
      → r.chain_trusted ≡ true
      → r.root_fingerprint ≡ expected_root_fingerprint
      → check_present digest nonce key r p ≡ ok doc
      → Signs digest nonce key r doc
  unfolding check_present
  present_sound none decoded valid trusted root h = absurd (ground arith)
  present_sound (some o) decoded valid trusted root h =
      contents_sound o decoded valid trusted root h

  check_result_sound : check_result digest nonce key r ≡ ok doc → Signs digest nonce key r doc
  unfolding check_result
  check_result_sound h = reject_then (not r.valid) _ _ h λ valid h.
      reject_then
        (not r.chain_trusted || not (bytes_eq r.root_fingerprint expected_root_fingerprint)) _ _ h
        λ chain h.
          present_sound r.document refl (passed_not valid) (passed_not (passed_left _ _ chain))
            (passed_bytes_eq _ _ (passed_right _ _ chain)) h

  check_result_complete : Signs digest nonce key r doc → check_result digest nonce key r ≡ ok doc
  unfolding check_result check_present check_contents
  check_result_complete s = simp (
    passes_not s.valid,
    passes_not s.trusted,
    passes_bytes_eq _ _ s.root,
    s.decoded,
    passes_bytes_eq _ _ s.nonce_is,
    passes_eq _ _ s.nonce_size,
    passes_bytes_eq _ _ s.digest_is,
    passes_eq _ _ s.digest_size,
    passes_eq _ _ s.key_size,
    s.key_nonzero,
    passes_bytes_eq _ _ s.key_is,
  )

pub document_sound :
    (digest nonce key : Bytes) (o : Option (Option NitroResult)) (r : NitroResult)
    (doc : NitroDocument)
    → check_document digest nonce key o ≡ ok (r, doc)
    → (o ≡ some (some r)) × Signs digest nonce key r doc
document_sound digest nonce key none r doc h = absurd (ground arith)
document_sound digest nonce key (some none) r doc h = absurd (ground arith)
document_sound digest nonce key (some (some q)) r doc h =
    bind_then (check_result digest nonce key q) _ h λ checked c done.
      let same = ok-injective done in
      let parts =
        λ (p : NitroResult × NitroDocument). (check_result digest nonce key p.0 ≡ ok p.1) in
      (
        ap (λ (p : NitroResult × NitroDocument). some (some p.0)) same,
        check_result_sound digest nonce key r doc (subst parts same c),
      )

pub document_complete :
    (digest nonce key : Bytes) (r : NitroResult) (doc : NitroDocument)
    → Signs digest nonce key r doc
    → check_document digest nonce key (some (some r)) ≡ ok (r, doc)
document_complete digest nonce key r doc s =
    rw (check_result_complete digest nonce key r doc s) refl
