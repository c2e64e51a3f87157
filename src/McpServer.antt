-- ===== src/McpServer.antt =====
-- packages/mcp-server.
pub mod Session
mod Examples
