-- ===== src/Gates.antt =====
-- What the engine refuses: actions outside its boundary, dispositions that contradict a verdict,
-- changes that weaken an invariant, artifacts that were rejected before, and sessions that no
-- protocol is bound to (tools/saipal_engine/capability.py, disposition.py, donoharm.py, poison.py,
-- blockers.py).
pub mod Blockers
pub mod Boundary
pub mod Disposition
pub mod Poison
pub mod Quarantine
mod Tests
