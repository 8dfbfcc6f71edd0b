-- ===== src/Lib.antt =====
-- Verification library of the Nexus SDK (Go): a client that sends prompts only to a Gateway whose
-- attested build it has checked.
--
-- The program. A local proxy (internal/proxy) takes OpenAI requests and hands each to the
-- confidential client (internal/confidential), which keeps a short session with the Gateway. A
-- session is made from evidence that the attestation verifier (internal/attestation) has checked
-- against a policy of pinned releases. The policy is given, or derived from signed release
-- manifests (internal/release) and derived again when an unknown release is met
-- (policy_refresh.go). Verifications and requests are recorded in a bounded ledger
-- (internal/ledger), which is flushed to a state file.
--
-- The files, with the code that each models:
--   Prelude        shared names; bytes, results, times, hexadecimal, bytes.TrimSpace
--   AtomicFile     writeFileAtomic of ledger/store.go and FileCache.Store of release/cache.go, as a
--                  list of system calls each of which may fail, or be the last before the
--                  process stops (what was written is kept; a crash of the machine is no part)
--   Jsonutil       jsonutil/json.go; a Reader is its bytes and whether it then fails
--   Http           the parts of net/http that are used
--   Attestation    policy.go in Policy (Policy.validate, decodePCR, releaseFor) and verifier.go in
--                  Verifier (validate and SetPolicy; fetch and Verify in Verifier/Fetch)
--   Refresh        policy_refresh.go (allowRefresh, refresh, Verify)
--   Release        source.go (list_releases, download, fetch, cached, source_policy); manifest.go
--                  and verify.go in Release/Signed
--   Url            the rules on URLs: normalizeGatewayURL, validateEndpoint of the clients
--   Confidential   client.go (session_for, do_post, reverify, invalidate), describe.go in
--                  Confidential/Describe, and frame_guard.go in Confidential/Guard: the loop of Read
--                  in Guard, the framing in Guard/Frames, RoundTrip and boundedReadCloser in
--                  Guard/Problem
--   Ledger         ledger.go; store.go in Ledger/Persist, and its concurrent Flush in Ledger/Flush
--   Proxy          handler.go: the event-stream tracker in Sse, forwardEventStream in Stream, the
--                  chat path of ServeHTTP and forwardNormal in Chat, copyResponseHeaders in Headers,
--                  the other routes in Routes, with those of proxy/verification.go
--   Catalog        catalog/catalog.go
--   Sdk            client.go and verification.go: validateConfig in Config, New in Client, the
--                  methods in Methods, startPolicyRefresh in Updates, the in-process transport in
--                  InProcess, the public view of the ledger in Surface
--   Command        cmd/nexus-proxy/main.go: the checks of the flags, and the exit of run in Exit
--   Tests          concrete runs
--
-- How the code is read. A function has the name of the Go function in snake case. A Go result with
-- an error is a `Result`, or an `Option` where no caller looks at the error. A method that changes
-- its receiver gives the new state back. A string or a byte slice is a list of numbers, a time is a
-- number of nanoseconds since year 1, a uint64 counter wraps at 2 ^ 64. A clock, a random source, a
-- network exchange or a failing system call is an argument. Loops are structural recursion over what
-- they range over, but for two. The decimal printer has 20 digits of fuel, enough for 64-bit integers.
-- The frame guard's loops have fuel, since a body may answer no bytes and no error; three passes for
-- each answer without an error are enough (Confidential/Guard/Fuel).
--
-- Packages that are not in the repository, and encoding/json, are parameters (`Deps`, `Sigstore`,
-- `Web`, `Ehbp`, `Codec`, `Local`, `Net`, `Outside`); what a theorem relies on of them is a named
-- hypothesis (`IsJson`, `IsCodec`, `IsCacheJson`, `UrlLaws`, `Reads`, `Answers`).
--
-- Not modelled: logging, the page that the verification surface serves, the definitions of the flags,
-- the texts of errors where no caller reads them, and the goroutines that flush and that serve HTTP;
-- they are input and output. Cancellation is modelled where a result depends on it. Locks are taken to
-- make each method one step, but for Flush, whose critical sections are steps of their own in
-- Ledger/Flush.
pub mod Prelude
pub mod AtomicFile
pub mod Url
pub mod Catalog
pub mod Sdk
pub mod Command
pub mod Confidential
pub mod Http
pub mod Jsonutil
pub mod Attestation
pub mod Ledger
pub mod Refresh
pub mod Release
pub mod Proxy
pub mod Tests
