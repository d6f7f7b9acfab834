-- ===== src/Retention.antt =====
-- The deletion of old dumps: cmd/greenmask/cmd/delete and internal/utils/dumpstatus.
pub mod Status
pub mod Dumps
pub mod Delete
pub mod Order
pub mod Complete
pub mod Kept
pub mod DryRun
mod Tests
