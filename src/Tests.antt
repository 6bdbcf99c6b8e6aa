-- ===== src/Tests.antt =====
-- Tests by evaluation, and the theorems at concrete inputs.
pub mod Collation
pub mod BlogData
mod BlogTests
mod AuthTests
mod IssuedTests
mod LoginTests
mod Ilike
mod PublicTests
mod ConcurrentTests
mod WebTests
mod ConfigTests
mod KeysTests
mod ContentTests
mod AppTests
mod StartTests
mod SignOutTests
