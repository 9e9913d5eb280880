-- ===== src/Mcp.antt =====
-- Tools: src/mcp.
pub mod Names
