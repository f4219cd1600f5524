-- ===== src/Lifecycle.antt =====
-- The jobs of the state under the polls and the results of agents, the timeouts of the scheduler and
-- the removal of a node: internal/server/agent_api.go, scheduler.go and node_management.go.
mod Advance
mod Polls
mod Rounds
mod Results
mod Extends
mod Adds
mod Completion
mod Outcomes
mod Maintenance
mod Requests
mod Rollouts
mod Records
mod Renewals
mod Accounts
mod Retries
mod Dispatch
mod Replies
mod Stepping
mod Traces
pub use Advance.*
pub use Polls.*
pub use Rounds.*
pub use Results.*
pub use Extends.*
pub use Adds.*
pub use Completion.*
pub use Outcomes.*
pub use Maintenance.*
pub use Requests.*
pub use Rollouts.*
pub use Records.*
pub use Renewals.*
pub use Accounts.*
pub use Retries.*
pub use Replies.*
pub use Stepping.*
pub use Traces.*
