-- ===== src/Service.antt =====
-- internal/service: the interfaces that the service takes, its data, and its operations.
pub mod Interface
pub mod Steps
pub mod Impl
pub mod Publishing
pub mod Creation
pub mod Changes
pub mod Reading
pub mod Paging
