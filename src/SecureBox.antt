-- ===== src/SecureBox.antt =====
-- internal/securebox/securebox.go: how secrets are stored. AES-GCM, base64 and hexadecimal are
-- parameters; New and KeyedDigest, which only call cryptography, are not modelled.
mod Defs
mod Sealed
unfoldable pub use Defs.*
pub use Sealed.*
