-- ===== src/OwnerLease.antt =====
-- scripts/owner_lease.py, which selects the owner of a task and keeps the lease on it.
pub mod Model
pub mod Selection
pub mod Lineage
mod Examples
