-- ===== src/Jobs.antt =====
-- Questions that the controller asks of its jobs and certificates: internal/server/scheduler.go,
-- node_management.go, certificate_sync_recovery.go and admin.go.

pub mod Queries
