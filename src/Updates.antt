-- ===== src/Updates.antt =====
-- internal/server/update_confirmation.go: an agent that accepted an update is watched until its
-- new version has been reported steadily, or the time is up.
mod Defs
mod Confirm
unfoldable pub use Defs.*
pub use Confirm.*
