-- ===== src/Screens.antt =====
-- The screens of server/internal/web/static/js/dashboard/screens.
pub mod Hosts
pub mod Forms
pub mod GroupForms
pub mod Tunnels
mod Tests
