-- ===== src/Agents.antt =====
-- internal/server/agent_api.go: the requests of an agent. JSON bodies and HTTP replies are not
-- modelled: an operation is the transaction that the handler runs on the state.
mod Dispatch
mod Choose
mod Poll
mod Selection
mod Complete
mod Frames
mod JobResult
mod Enroll
mod Once
mod Delivery
mod Reply
unfoldable pub use Dispatch.*
pub use Choose.*
unfoldable pub use Poll.*
pub use Selection.*
unfoldable pub use Complete.*
pub use Frames.*
unfoldable pub use JobResult.*
unfoldable pub use Enroll.*
pub use Once.*
pub use Delivery.*
unfoldable pub use Reply.*
