-- ===== src/Scheduler.antt =====
-- internal/server/scheduler.go and internal/server/certificate_sync_recovery.go: the maintenance
-- that the controller runs every 15 seconds. The ticker itself is not modelled.
mod Timeouts
mod Recovery
mod Renewal
mod Maintenance
unfoldable pub use Timeouts.*
unfoldable pub use Recovery.*
unfoldable pub use Renewal.*
unfoldable pub use Maintenance.*
