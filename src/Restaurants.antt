-- ===== src/Restaurants.antt =====
-- src/modules/restaurant.
pub mod Service
pub mod Laws
