-- ===== src/Sync.antt =====
-- internal/service/sync.go
pub mod Cursor
pub mod Page
