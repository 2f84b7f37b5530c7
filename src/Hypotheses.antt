-- ===== src/Hypotheses.antt =====
-- scripts/hypothesis_ledger.py, the ledger of hypotheses that were rejected.
pub mod Model
pub mod Operations
pub mod Ledger
pub mod Items
pub mod Returning
pub mod Searching
pub mod Blocking
pub mod Texts
pub mod Events
pub mod Validity
pub mod Reopening
pub mod Revisits
pub mod Recording
pub mod Reached
pub mod Refinement
pub mod Command
pub mod Synchrony
mod Examples
mod Runs
pub mod Reopened
