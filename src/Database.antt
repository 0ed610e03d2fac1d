-- ===== src/Database.antt =====
-- internal/database
pub mod Transaction
