-- ===== src/Sdk.antt =====
-- client.go and verification.go: the embedding client of the package nexus. The parts: Config
-- checks a Config, InProcess carries requests to the handler inside the process, Surface copies the
-- ledger's view, and Client composes them.
pub mod Config
pub mod Surface
pub mod InProcess
pub mod Client
pub mod Updates
pub mod Methods
