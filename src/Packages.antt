-- ===== src/Packages.antt =====
-- The third-party code that the services call, as a parameter: TypeORM's `Repository`, the package
-- uuid, and what the development relies on of them.
-- `Packages` holds the operations, `PackageLaws` states their documented behaviour as hypotheses
-- of the theorems, and `Memory` is an implementation that meets the laws.
mod Interface
pub mod Memory
pub use Interface.*
