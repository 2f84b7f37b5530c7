-- ===== src/Monitor.antt =====
-- scripts/claude-monitor-decision.py, which reads off how far a dispatched run has come.
pub mod Lifecycle
