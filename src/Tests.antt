-- ===== src/Tests.antt =====
-- The theorems at concrete inputs, and runs of the definitions.
mod Users
mod BindTests
mod ArgsTests
mod ScanTests
mod EngineTests
mod HandleTests
mod GenericsTests
mod HelperTests
mod StatementTests
mod CacheTests
