-- ===== src/Resources.antt =====
-- What the resource services share: the tables of internal/db/query/domain.sql, and which of their
-- rows a command's changes name.
pub mod Rows
pub mod Tracked
pub mod Chain
pub mod Swept
pub mod Service
