-- ===== src/Reports.antt =====
-- What an agent reports of its node: internal/server/agent_api.go (validateNodeReport,
-- applyNodeReport, truncate, appendUnique), internal/server/settings.go (appendNodeStatusSample)
-- and internal/server/node_management.go (removeString).
mod Defs
mod Laws
unfoldable pub use Defs.*
pub use Laws.*
