-- ===== src/Commands.antt =====
-- internal/server/node_management.go: the updates that the administrator asks of nodes.
mod Defs
mod Single
mod Updates
mod Ordering
mod Batch
mod Rollout
unfoldable pub use Defs.*
pub use Single.*
unfoldable pub use Updates.*
pub use Ordering.*
pub use Batch.*
pub use Rollout.*
