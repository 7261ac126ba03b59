-- ===== src/Middleware.antt =====
-- internal/middleware: wrappers of http.Handler.
pub mod Writer
pub mod Wrappers
pub mod Logging
pub mod Headers
pub mod Logged
