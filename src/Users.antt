-- ===== src/Users.antt =====
-- Users (src/modules/user).
pub mod Service
pub mod Fresh
