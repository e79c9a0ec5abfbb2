-- ===== src/Jobs.antt =====
-- The durable job journal of the analyst worker (tools/saipal_analyst/jobs.py).
pub mod Stage
pub mod Job
pub mod Advance
pub mod Resume
pub mod Restart
pub mod Compaction
mod Tests
