-- ===== src/Proxy.antt =====
-- crates/hull-ci-proxy/src: the package proxy's rate limits and grants.
pub mod RateLimit
pub mod Grant
mod Examples
