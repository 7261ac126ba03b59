-- ===== src/Server/Requests.antt =====
-- Requests to the service, one after the other, over the servers that NewServer connects it to. They
-- are traffic of the database (Repository/Traffic.antt).
pub mod Runs
pub mod Silent
pub mod Writing
pub mod Plain
pub mod Lifecycle
