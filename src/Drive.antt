-- ===== src/Drive.antt =====
-- One unit driven through the stages of its job to a settled outcome (`_drive_unit` of
-- tools/saipal_analyst/worker.py and `needs_critic` of tools/saipal_analyst/output.py).
pub mod Critic
pub mod State
pub mod Steps
pub mod Roles
pub mod Unit
pub mod Rules
pub mod Frame
pub mod Settled
pub mod Fit
pub mod Answered
pub mod Outcome
pub mod Investigated
pub mod Late
pub mod Finalized
pub mod Handed
pub mod Turns
pub mod Refused
pub mod Owed
pub mod Spent
pub mod Validated
pub mod Paid
pub mod Bought
pub mod Billed
pub mod Bounded
pub mod Sound
mod Tests
