-- ===== src/Federation.antt =====
-- packages/federation.
pub mod JsonSchema
pub mod Policy
pub mod Naming
pub mod ToolClassifier
pub mod Pagination
pub mod Discovery
pub mod Handler
mod Examples
