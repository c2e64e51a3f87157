-- ===== src/OAuth.antt =====
-- packages/oauth.
pub mod TokenFailure
pub mod TokenManager
pub mod Exchange
pub mod InsufficientScope
pub mod WwwAuthenticate
pub mod Revocation
mod Examples
