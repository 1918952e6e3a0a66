-- ===== src/Helpers.antt =====
-- helpers.go: `StructScan`, `MapScan` and `SliceScan` of a `Row` or of `Rows`.
pub mod StructScan
pub mod MapScan
