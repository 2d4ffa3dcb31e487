-- ===== src/Commerce.antt =====
-- internal/commerce: the order aggregate, its state machine, its events, the memory store and the
-- service over it.
pub mod Status
pub mod Model
pub mod Event
pub mod Result
pub mod Ensures
pub mod Keys
pub mod Store
pub mod Validation
pub mod Service
pub mod Contract
