-- ===== src/Kv.antt =====
-- The key-value service (src/kvraft).
pub mod Types
pub mod Server
pub mod Node
pub mod Clerk
pub mod Menu
pub mod Examples
