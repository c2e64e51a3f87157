-- ===== src/Security.antt =====
-- packages/security.
pub mod Breaker
pub mod RateLimit
pub mod Vault
pub mod IpRules
mod Examples
