-- ===== src/Pagination.antt =====
-- Pagination (src/common/pagination).
mod Objects
unfoldable pub use Objects.*
pub mod Pages
