-- ===== src/Controllers.antt =====
-- The routes: each controller method behind its guards and pipes.
pub mod Routes
pub mod Market
pub mod Accounts
pub mod Placing
