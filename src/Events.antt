-- ===== src/Events.antt =====
-- Sockets (src/events).
pub mod Gateway
pub mod Delivery
