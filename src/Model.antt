-- ===== src/Model.antt =====
-- internal/model/model.go: the persisted state of the controller.
mod Nodes
mod Jobs
mod Domains
mod Certificates
mod States
pub use Nodes.*
unfoldable pub use Jobs.*
pub use Domains.*
pub use Certificates.*
pub use States.*
