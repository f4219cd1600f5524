-- ===== src/Release.antt =====
-- internal/server/release.go: versions of releases, and what is known of a release. The network
-- and the cache of release files are not modelled.
mod Semver
mod Order
mod Bundle
unfoldable pub use Semver.*
pub use Order.*
pub use Bundle.*
