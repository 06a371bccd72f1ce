-- ===== src/Crypto.antt =====
-- server/internal/web/static/js/dashboard/crypto.js.
pub mod Concat
pub mod Writer
pub mod Reader
pub mod Platform
pub mod Base64
pub mod PrivateKey
pub mod Generate
pub mod Toy
mod Tests
