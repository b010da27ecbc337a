-- ===== src/Cached.antt =====
-- Methods with `@Cache` (src/core/cache/cache.module.ts).
pub mod Methods
