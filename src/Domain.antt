-- ===== src/Domain.antt =====
-- The entities of backend/src/domain/entities and the enumerations of backend/src/domain/value_objects.
pub mod User
pub mod Session
pub mod WorkOrder
pub mod Template
pub mod Event
pub mod Photo
pub mod Report
pub mod Asset
pub mod Manual
