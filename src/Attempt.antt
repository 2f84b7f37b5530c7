-- ===== src/Attempt.antt =====
-- scripts/classify-claude-attempt.py, which decides what a finished attempt counts for.
pub mod Classify
pub mod Accounting
mod Examples
