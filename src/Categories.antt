-- ===== src/Categories.antt =====
-- Categories (src/modules/category).
pub mod Service
pub mod Slugs
