-- ===== src/Removal.antt =====
-- internal/server/node_management.go: revokeNodeState, by which a node is removed, with
-- handleAgentUnregister of agent_api.go and handleRevokeNode and handleRevokeNodes of admin.go.
mod Defs
mod Detach
mod Idle
unfoldable pub use Defs.*
pub use Detach.*
pub use Idle.*
