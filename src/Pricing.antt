-- ===== src/Pricing.antt =====
-- backend/src/yitu/pricing.
pub mod Policy
pub mod Service
