-- ===== src/Versions.antt =====
-- internal/agent/executor.go: the versions that an agent accepts for its own update, beside those
-- that the controller offers.
mod Defs
mod Agree
unfoldable pub use Defs.*
pub use Agree.*
