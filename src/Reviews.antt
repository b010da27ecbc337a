-- ===== src/Reviews.antt =====
-- src/modules/review.
pub mod Service
pub mod Creating
pub mod Changing
