-- ===== src/Dishes.antt =====
-- src/modules/dish.
pub mod Service
pub mod Laws
