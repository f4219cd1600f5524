-- ===== src/Wire.antt =====
-- internal/server/agent_api.go: what a job carries to its agent, and what an agent's certificate
-- becomes. JSON is a parameter.
mod Payloads
mod Build
mod Prepare
mod Kept
unfoldable pub use Payloads.*
unfoldable pub use Build.*
unfoldable pub use Prepare.*
pub use Kept.*
