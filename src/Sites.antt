-- ===== src/Sites.antt =====
-- internal/nginxconfig/config.go: the configuration of a site.
mod Names
mod Template
mod Valid
unfoldable pub use Names.*
unfoldable pub use Template.*
pub use Valid.*
