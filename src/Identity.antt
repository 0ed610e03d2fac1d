-- ===== src/Identity.antt =====
-- Accounts and sessions: internal/service/account.go and internal/service/session.go over
-- internal/postgres/account_repository.go.
pub mod Store
pub mod Repository
pub mod Password
pub mod Validation
pub mod Sessions
pub mod Changes
pub mod Accounts
pub mod Revoked
pub mod Reset
pub mod Guard
pub mod Reads
pub mod Admission
