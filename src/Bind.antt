-- ===== src/Bind.antt =====
-- internal/bind/bind.go.
pub mod Registry
pub mod Rebind
pub mod In
pub mod Compile
pub mod Args
pub mod Named
