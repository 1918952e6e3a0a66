-- ===== src/Engine.antt =====
-- engine.go.
pub mod Meta
pub mod Dest
pub mod Scan
pub mod Rows
pub mod Pool
