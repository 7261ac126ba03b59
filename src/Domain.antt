-- ===== src/Domain.antt =====
-- internal/domain: the order, its items, its statuses and the errors of the service.
pub mod Errors
pub mod Status
pub mod Lifecycle
pub mod Item
pub mod Order
