-- ===== src/Broker.antt =====
-- scripts/model-call-broker.py, which gates and records the calls to models.
pub mod Ledger
pub mod Checks
pub mod Execution
pub mod Folding
pub mod Budget
pub mod Duplicates
pub mod Written
pub mod Settling
pub mod Histories
pub mod Lifecycle
pub mod Sessions
pub mod Diagnostics
mod Examples
