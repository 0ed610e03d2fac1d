-- ===== src/Worker.antt =====
-- internal/worker and the queue of internal/postgres/outbox_repository.go
pub mod Queue
pub mod Runner
pub mod Agent
