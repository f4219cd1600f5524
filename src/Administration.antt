-- ===== src/Administration.antt =====
-- internal/server/admin.go: the requests of the administrator that change the records of the
-- controller. JSON bodies and HTTP replies are not modelled: an operation is the transaction that
-- the handler runs on the state.
mod Selections
mod Records
mod Jobs
mod Renewals
mod Accounts
mod Selected
mod Removed
mod Cleared
unfoldable pub use Selections.*
unfoldable pub use Records.*
unfoldable pub use Jobs.*
unfoldable pub use Renewals.*
unfoldable pub use Accounts.*
pub use Selected.*
pub use Removed.*
pub use Cleared.*
