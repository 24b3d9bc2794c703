-- ===== src/Mcp.antt =====
-- The door through which agents reach the tracker: src/mcp/.
pub mod Auth
pub mod Server
pub mod Uses
pub mod Laws
pub mod Tools
pub mod Serve
