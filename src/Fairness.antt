-- ===== src/Fairness.antt =====
-- The durable fair-share queue (tools/saipal_analyst/fairness.py).
pub mod Queue
pub mod Claims
pub mod Invariant
pub mod Order
pub mod Waiting
mod Tests
