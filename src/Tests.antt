-- ===== src/Tests.antt =====
-- The theorems at concrete inputs.
pub mod AuditLogs
pub mod Calendars
pub mod Commands
pub mod Deliveries
pub mod Cursors
pub mod Audits
pub mod DeviceTables
pub mod Identities
pub mod Logins
pub mod Pages
pub mod Queues
pub mod Resets
pub mod SettingsPatches
pub mod GoalTables
pub mod TaskTables
