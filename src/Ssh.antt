-- ===== src/Ssh.antt =====
-- server/internal/web/static/js/dashboard/ssh.
pub mod Slots
pub mod Session
pub mod Page
pub mod Sessions
pub mod HostKeys
pub mod Auth
mod SignInTests
mod Tests
