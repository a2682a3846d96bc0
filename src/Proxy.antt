-- ===== src/Proxy.antt =====
-- src/ic_govmind_api_proxy/server.js: the service that forwards proposals to the language model.
pub mod Extract
pub mod Analysis
pub mod Debate
pub mod Draft
pub mod Prompts
pub mod Host
pub mod Handlers
mod Tests
