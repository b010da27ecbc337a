-- ===== src/Repository.antt =====
-- `GenericTypeOrmRepository` (src/core/database/typeorm/generic-typeorm.repository.ts): each method
-- builds the options and calls TypeORM's `Repository`, a parameter of the model.
mod Generic
pub mod Laws
pub mod Joined
unfoldable pub use Generic.*
