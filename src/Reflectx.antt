-- ===== src/Reflectx.antt =====
-- internal/reflectx/reflectx.go.
pub mod Mapper
pub mod Address
pub mod Tags
pub mod Flatten
pub mod TypeMap
