-- ===== src/Store.antt =====
-- The synchronised data of server/internal/web/static/js/dashboard/store.js, and the two handlers
-- of server/internal/syncapi/sync.go that it calls.
pub mod Payload
pub mod Server
pub mod Client
pub mod Rows
pub mod Toy
mod RowTests
mod Tests
