-- ===== src/Budgets.antt =====
-- The durable budgets and circuit breakers (tools/saipal_analyst/budgets.py).
pub mod Ledger
pub mod Windows
pub mod Usage
pub mod Rollback
pub mod Circuit
pub mod Breaker
pub mod Transaction
pub mod Sources
pub mod Isolation
mod Tests
