-- ===== src/Metrics.antt =====
-- server/internal/web/static/js/dashboard/metrics.
pub mod Rates
pub mod Backoff
pub mod Pool
pub mod Controller
pub mod Shell
pub mod Sections
pub mod Reports
pub mod Inventory
pub mod History
mod Tests
mod ReportTests
mod ControllerTests
mod HistoryTests
