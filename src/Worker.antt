-- ===== src/Worker.antt =====
-- The worker's choice of a unit and its paid calls (tools/saipal_analyst/worker.py).
pub mod Call
pub mod Failure
pub mod Guard
pub mod Asks
pub mod Hourly
pub mod Choice
pub mod Busy
pub mod Eligible
mod Tests
