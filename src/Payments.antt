-- ===== src/Payments.antt =====
-- Payments (src/modules/payment): the request object and the service.
pub mod Service
pub mod Once
pub mod Laws
pub mod Paying
