-- ===== src/Requeue.antt =====
-- A fresh attempt for units whose answer was refused (tools/saipal_analyst/requeue.py).
pub mod Decide
pub mod Apply
pub mod Allowance
pub mod Report
pub mod Plan
pub mod Passes
pub mod Accounts
pub mod Forecast
pub mod Status
mod Tests
