-- ===== src/Cache.antt =====
-- internal/cache: the cache interface, and its implementation over Redis.
pub mod Interface
pub mod Redis
pub mod Laws
pub mod Patterns
