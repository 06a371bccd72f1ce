-- ===== src/Sftp.antt =====
-- server/internal/web/static/js/dashboard/screens/sftp.js.
pub mod Paths
pub mod Sides
pub mod Transfers
mod PathTests
mod Tests
