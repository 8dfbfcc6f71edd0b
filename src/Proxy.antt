-- ===== src/Proxy.antt =====
-- internal/proxy: the local OpenAI-compatible HTTP surface.
pub mod Sse
pub mod Stream
pub mod Chat
pub mod Headers
pub mod Routes
