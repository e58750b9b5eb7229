-- ===== src/Mcp.antt =====
-- internal/mcp/server.go: the tools, over the Manager and the executor.
pub mod Model
pub mod Tools
pub mod Entry
