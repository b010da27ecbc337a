-- ===== src/Errors.antt =====
-- What a client and the log see of an error (src/core/filter, src/core/interceptor).
pub mod Objects
pub mod Filter
pub mod Replies
