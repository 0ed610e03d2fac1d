-- ===== src/Model.antt =====
-- The shared data of apps/api/internal/model: identifiers, instants, errors, JSON values and the
-- records of the command pipeline.
mod Basic
mod Errors
mod Values
mod Command
pub use Basic.*
pub use Errors.*
pub use Values.*
pub use Command.*
