-- ===== src/Review.antt =====
-- scripts/select-review-tier.py, which selects who reviews a result.
pub mod Tier
pub mod Safety
mod Examples
