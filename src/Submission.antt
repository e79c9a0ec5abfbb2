-- ===== src/Submission.antt =====
-- The constrained submission boundary: an analyst's candidate becomes a receipt and a move of the
-- semantic position (tools/saipal_engine/submit.py, with the scope check of candidates.py and the
-- defence surface of defence.py).
pub mod Defence
pub mod Raised
pub mod Candidate
pub mod Submit
pub mod Address
pub mod Send
pub mod Retry
mod Tests
