-- ===== src/Tests.antt =====
-- Concrete runs of the models, at which the theorems' hypotheses hold.
mod Fixtures
mod AttestationRuns
mod JsonRuns
mod LedgerRuns
mod ProxyRuns
mod ReleaseRuns
mod GuardRuns
mod SdkRuns
mod AttestedRun
