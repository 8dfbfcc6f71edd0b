-- ===== src/Attestation.antt =====
-- internal/attestation: the client-pinned trust policy and the verifier of Gateway evidence.
pub mod Policy
pub mod Verifier
