-- ===== src/Orders.antt =====
-- Orders (src/modules/order): the request objects, the service, and the nightly clean-up.
pub mod Dto
pub mod Service
pub mod Queries
pub mod Permission
pub mod Edit
pub mod Editing
pub mod EditOutcome
pub mod EditReturns
pub mod Bill
pub mod Create
pub mod Placing
pub mod PlaceOutcome
pub mod Cleaning
pub mod Visible
pub mod History
