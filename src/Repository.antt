-- ===== src/Repository.antt =====
-- internal/repository: the data access interface, and its implementation over PostgreSQL.
pub mod Interface
pub mod Database
pub mod Postgres
pub mod Listing
pub mod Rows
pub mod History
pub mod Calls
pub mod Table
pub mod Develops
pub mod Queries
pub mod Methods
pub mod Reads
pub mod Locking
pub mod Deletion
pub mod Creation
pub mod Refusals
pub mod Pages
pub mod Transitions
pub mod Abstract
pub mod Traffic
