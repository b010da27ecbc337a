-- ===== src/Logging.antt =====
-- src/core/logger, src/core/middleware/requestLogger.middleware.ts and src/core/config.
pub mod Config
pub mod Service
pub mod Requests
pub mod Ids
