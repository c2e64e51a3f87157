-- ===== src/McpClient.antt =====
-- packages/mcp-client.
pub mod Sse
mod Examples
