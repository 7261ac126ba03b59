-- ===== src/Examples.antt =====
-- The theorems applied at concrete orders, tables, caches and requests.
pub mod Concrete
pub mod Stores
pub mod Services
pub mod Interfaces
pub mod Processes
pub mod Traffics
pub mod Reads
