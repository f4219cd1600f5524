-- ===== src/Logins.antt =====
-- internal/server/login_limit.go: the limit on the attempts to log in. The bucket of password
-- checks, which computes with floating point numbers, and the HTTP reply are not modelled.
mod Defs
mod Bounds
mod Window
unfoldable pub use Defs.*
pub use Bounds.*
unfoldable pub use Window.*
