-- ===== src/Events.antt =====
-- internal/server/events.go: the tickets of real-time connections, and the bound on handshakes.
mod Tickets
mod Spent
mod Pending
unfoldable pub use Tickets.*
unfoldable pub use Spent.*
unfoldable pub use Pending.*
