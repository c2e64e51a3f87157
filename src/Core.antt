-- ===== src/Core.antt =====
-- packages/core: the shared kernel.
pub mod Errors
pub mod Json
pub mod JsonRpc
pub mod Domain
mod Examples
