-- ===== src/Effects.antt =====
-- What a transaction on the state does besides computing: internal/id/id.go (fresh identifiers),
-- time.Now and encoding/json come from an environment, errors are values, and the state with the
-- number of reads of the environment made so far is passed along.
mod Environment
mod Worlds
mod Audit
mod Enqueue
mod Laws
mod Loops
pub use Environment.*
unfoldable pub use Worlds.*
unfoldable pub use Audit.*
unfoldable pub use Enqueue.*
pub use Laws.*
pub use Loops.*
