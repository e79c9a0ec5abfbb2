-- ===== src/Analysis.antt =====
-- A session's evidence as units of work: episodes, slices, the semantic position and its coverage
-- (tools/saipal_engine/episodes.py, carrier.py, submit.py, coverage.py).
pub mod Event
pub mod Episodes
pub mod Partition
pub mod Marks
pub mod Boundaries
pub mod Paging
pub mod Handover
pub mod Session
pub mod Advance
pub mod Forward
pub mod Review
pub mod Drained
pub mod Exhaustion
pub mod Reviewed
pub mod Seen
pub mod Count
pub mod Coverage
pub mod Covered
pub mod Judged
mod Tests
mod CoverageTests
