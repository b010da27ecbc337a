-- ===== src/Entity.antt =====
-- The entities of src/entities and of src/core/database/typeorm/base.entity.ts as records.
-- A column that may be null is an `Option`, and so is a relation: it is `none` where it was not
-- joined or where the related row is gone, and reading a property of it then throws.
-- Times are milliseconds. An id that was never set is the empty text, which is falsy as well.
pub mod Common
pub mod Rows
pub use Common.*
pub use Rows.*
