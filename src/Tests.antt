-- ===== src/Tests.antt =====
-- Concrete data in memory.
mod Data
mod Ordering
mod Paying
mod Reviewing
mod Serving
mod Signing
mod Opening
mod Registering
mod Entering
mod Posting
mod History
mod Logging
mod Failing
mod Uploading
mod Caching
