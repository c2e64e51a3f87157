-- ===== src/Storage.antt =====
-- packages/storage.
pub mod Table
pub mod Connections
pub mod Catalogue
pub mod LeaseLock
mod Examples
