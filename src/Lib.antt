-- ===== src/Lib.antt =====
-- The API of be-better: a Go server (apps/api) over PostgreSQL for a planner that works offline, and a
-- worker that handles its outbox. This library models the server's core and proves what it promises.
--
-- The parts, and how they interact. A resource service hands an operation to
-- `CommandService.Execute` (internal/service/command.go). That runs one user transaction
-- (internal/database/transaction.go), in which it claims the client's mutation
-- (internal/service/idempotency.go, internal/postgres/idempotency_repository.go), runs the operation,
-- writes sync changes (internal/service/sync.go, internal/postgres/sync_repository.go), audits
-- (internal/service/audit.go) and outbox events (internal/postgres/outbox_writer.go), and completes the
-- mutation with the response. Clients read the changes in pages, with signed cursors; the worker
-- (internal/worker/runner.go, internal/postgres/outbox_repository.go) claims and settles the events.
-- All paths are below apps/api.
--
-- The modules:
--   Prelude      shared names, tests, lists over the native numbers, text
--   Model        UUIDs and times, errors, JSON, the records of internal/model
--   Exec         actions with a state and an error; Exec.Ensures, rules for what they ensure
--   Database     internal/database/transaction.go: the retry loop, against any environment
--   Store        the tables of the pipeline; Store.Mutations and Store.Changes are the repositories
--   Idempotency  internal/service/idempotency.go
--   Command      internal/service/command.go; Outbox its prepareOutbox, Writers the writers it is given
--   Codec        binary.BigEndian, base64.RawURLEncoding, tagged payloads
--   Sync         internal/service/sync.go: Cursor the cursors, Page the pages
--   Pagination   internal/service/resource_cursor.go
--   Audit        internal/service/audit.go; Filter its redaction
--   AuditLog     internal/service/audit_query.go and the reads of internal/postgres/audit_repository.go
--   Worker       Queue is internal/postgres/outbox_repository.go, Runner internal/worker/runner.go,
--                Agent internal/worker/agent.go
--   Tasks        internal/service/task.go and internal/postgres/task_repository.go (Store), whose table
--                stands for R
--   Resources    what the services of resources share: Rows the statements on a table of a user, Tracked
--                and Chain the rows that changes name, Service pages and answers
--   Goals        internal/service/goal.go and internal/postgres/goal_repository.go (Store)
--   Calendar     internal/service/calendar.go and internal/postgres/calendar_repository.go (Store,
--                Reminders)
--   Deliveries   internal/worker/reminder.go (Handler) and
--                internal/postgres/reminder_delivery_repository.go
--   Settings     internal/service/settings.go (Validation, Service) and
--                internal/postgres/settings_repository.go
--   Devices      internal/service/device.go and internal/postgres/device_repository.go
--   Identity     accounts and sessions: Store the tables, Repository
--                internal/postgres/account_repository.go, Password internal/auth/password.go, Sessions
--                internal/service/session.go, Accounts internal/service/account.go
--   Tests        the theorems at concrete inputs
--
-- How the code is read. An action is a function from the state that a transaction sees to a result
-- and a state; an error keeps what was written, and the rollback is in Database.Transaction. An
-- `Attempt` says what the server, the network and other clients do in one round of `WithUser`; the
-- theorems on transactions hold for all of them, and those on accounts and sessions too, but for
-- two on refused logins, which take `calm` calls: none fails and no other transaction intervenes.
-- Each round has readings of the clock and fresh UUIDs of its own. In a transaction any statement
-- may fail with a server error: the field `fault`. The worker's calls of Claim, Complete and Retry
-- may fail too, before or after their statement: a `Reply`. The statements of the repositories do
-- what the SQL of internal/db/query, of the code that sqlc makes of it, and of migrations says.
-- now() and statement_timestamp() are one clock of the tables. The pipeline takes the tables of the
-- resource services as one type `R`, which a resource operation reads and writes and which each
-- service fills with tables of its own; `resolve` stands for `SyncStore.Resolve`, a read of those
-- tables. The calls of internal/postgres/account_repository.go run without retries, one `Attempt`
-- each.
--
-- A UUID is its 128-bit number, a time the number of nanoseconds since the start of year 0, and an
-- error its class under errors.Is, without its text. Strings are valid UTF-8. JSON is taken by value.
-- SHA-256, HMAC, Argon2id, the standard base64, fmt.Sscanf, net/mail, net/netip, html, the names of
-- timezones, the mail server, float64 with the numeric columns of goals, the size of an encoded
-- document, encoding/json on the structs, and the letter cases and character classes of package
-- unicode are parameters; so are the order in which Go visits a map, where it shows, and fresh
-- UUIDs; where a theorem needs that a tag is 32 bytes, it says so (`LawfulMac`). The checks for nil
-- receivers and nil dependencies are left out.
--
-- Bounds and fuel: `WithUser` runs at most three rounds (`default_attempts`), each counted down; the
-- loop of `retryDelay` runs once for each attempt after the first. All else is structural recursion.
--
-- Not modelled: the services of records, notes, reviews, tags and links, the agent's runs, the undo
-- of changes, keys between resources but that of a reminder to its event, the cut of times to
-- microseconds in columns other than a session's expiry, a time that the closure of the task's
-- Update keeps for a later round, a handler's effects outside the queue, the polling loop of the
-- worker, the sleep between rounds, HTTP handlers, the model provider, configuration, start-up,
-- metrics and the web client.
pub mod Prelude
pub mod Model
pub mod Exec
pub mod Database
pub mod Store
pub mod Goals
pub mod Calendar
pub mod Deliveries
pub mod Devices
pub mod Idempotency
pub mod Identity
pub mod Command
pub mod Codec
pub mod Sync
pub mod Pagination
pub mod Audit
pub mod AuditLog
pub mod Worker
pub mod Resources
pub mod Settings
pub mod Tasks
pub mod Tests
