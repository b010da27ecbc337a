-- ===== src/Access.antt =====
-- Who may call a route: the strategies and guards of a request, and the routes.
pub mod Passport
pub mod Guards
pub mod Bearer
pub mod Allowed
pub mod Restricted
pub mod SignedOut
pub mod Memory
pub mod Welcome
