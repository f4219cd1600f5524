-- ===== src/Store.antt =====
-- internal/store/store.go: transactions on the persisted state, and the signals to subscribers.
mod Defs
mod Runs
unfoldable pub use Defs.*
pub use Runs.*
